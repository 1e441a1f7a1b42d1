-- ===== src/Wire/MessageType.antt =====
-- `MessageType` of src/traghetto/wire/Frame.h, by its values: the type byte of the header.
use Prim.Native.Nat.{ℕ}

abbrev pub invalid_message : ℕ
invalid_message = 0x00

abbrev pub hello : ℕ
hello = 0x01

abbrev pub welcome : ℕ
welcome = 0x02

abbrev pub list : ℕ
list = 0x10

abbrev pub stat_message : ℕ
stat_message = 0x11

abbrev pub open_file : ℕ
open_file = 0x12

abbrev pub read : ℕ
read = 0x13

abbrev pub write_message : ℕ
write_message = 0x14

abbrev pub close : ℕ
close = 0x15

abbrev pub mkdir : ℕ
mkdir = 0x20

abbrev pub unlink : ℕ
unlink = 0x21

abbrev pub rename : ℕ
rename = 0x22

abbrev pub truncate : ℕ
truncate = 0x23

abbrev pub list_attrs : ℕ
list_attrs = 0x30

abbrev pub read_attrs : ℕ
read_attrs = 0x31

abbrev pub write_attrs : ℕ
write_attrs = 0x32

abbrev pub query_open : ℕ
query_open = 0x40

abbrev pub query_result : ℕ
query_result = 0x41

abbrev pub query_update : ℕ
query_update = 0x42

abbrev pub query_close : ℕ
query_close = 0x43

abbrev pub error_message : ℕ
error_message = 0xe0
