-- ===== src/Wire/Arrays.antt =====
-- The arrays inside payloads of src/traghetto/wire: an array header within a limit, then a loop that
-- reads an item and appends it.
use campiello.Common.{
  ℕ, zero, suc, ◌+◌, ◌≤◌, subst, List, [], ◌∷◌, ◌++◌, append-nil, append_assoc, length,
  length-append, leb, All, arith,
}
use campiello.Wire.Cbor.Monad.{M, pure, when, repeat, ◌>>=◌}
use campiello.Wire.Cbor.Writer.{array_header}
use campiello.Wire.Cbor.Reader.{read_array_header}
use campiello.Wire.Cbor.Reads.{Reads, Reads-bind, Reads-last, Reads-pure, Reads-when}
use campiello.Wire.Cbor.Head.{IsU64, array_header-Reads}
use campiello.Wire.Fields.Post.{Post, Post-any, Post-bind, Post-pure, Post-when, Post-weaken}

-- `result.push_back(item)` behind the read of an item.
abbrev pub push : {A : Type 0} → M A → List A → M (List A)
push item acc = item >>= λ a. pure (acc ++ (a ∷ []))

unfoldable pub read_items : {A : Type 0} → ℕ → M A → M (List A)
read_items limit item = read_array_header >>= λ n. when (leb n limit) (repeat n (push item) [])

-- `for (const A& a : items) write(a);`
unfoldable pub write_items : {A : Type 0} → (A → List ℕ) → List A → List ℕ
write_items write [] = []
write_items write (a ∷ items) = write a ++ write_items write items

module _ {A : Type 0} (P : A → Type 0) (write : A → List ℕ) (item : M A)
    (each : (a : A) → P a → Reads item 0 (write a) a × (1 ≤ length (write a))) where
  write_items-room :
      (items : List A) → All P items → length items ≤ length (write_items write items)
  unfolding write_items
  write_items-room [] h = omega arith
  write_items-room (a ∷ items) h = omega (
    arith,
    (each a h.0).1,
    write_items-room items h.1,
    length-append (write a) (write_items write items),
  )

  repeat-Reads :
      (items acc : List A)
      → All P items
      → Reads (repeat (length items) (push item) acc) 0 (write_items write items) (acc ++ items)
  unfolding repeat write_items
  repeat-Reads [] acc h = rw (append-nil acc) (Reads-pure acc)
  repeat-Reads (a ∷ items) acc h = rw (← append_assoc acc (a ∷ []) items) (
      Reads-bind (repeat (length items) (push item))
        (Reads-last (λ b. pure (acc ++ (b ∷ []))) (each a h.0).0 (Reads-pure (acc ++ (a ∷ [])))
          (omega arith))
        (repeat-Reads items (acc ++ (a ∷ [])) h.1) (omega arith))

  pub Reads-items :
      (limit : ℕ) (items : List A)
      → All P items
      → length items ≤ limit
      → IsU64 (length items)
      → Reads
          (read_items limit item)
          0
          (array_header (length items) ++ write_items write items)
          items
  unfolding read_items
  Reads-items limit items h k u =
      Reads-bind (λ n. when (leb n limit) (repeat n (push item) []))
        (array_header-Reads (length items) u) (Reads-when (ground arith) (repeat-Reads items [] h))
        (omega (arith, write_items-room items h))

-- What the loop has read so far, and how much.
abbrev pub AllWithin : {A : Type 0} → (A → Type 0) → ℕ → List A → Type 0
AllWithin P limit items = All P items × (length items ≤ limit)

module _ {A : Type 0} (P : A → Type 0) (item : M A) (each : Post item P) where
  All-push : (acc : List A) (a : A) → All P acc → P a → All P (acc ++ (a ∷ []))
  All-push [] a h k = (k, tt)
  All-push (b ∷ acc) a h k = (h.0, All-push acc a h.1 k)

  repeat-Post :
      (n m : ℕ) (acc : List A)
      → AllWithin P m acc
      → Post (repeat n (push item) acc) (AllWithin P (n + m))
  unfolding repeat
  repeat-Post zero m acc h = Post-pure (AllWithin P (0 + m)) acc (h.0, omega (arith, h.1))
  repeat-Post (suc n) m acc h =
      Post-bind (AllWithin P (suc n + m)) (AllWithin P (suc m)) (repeat n (push item))
        (push item acc)
        (Post-bind (AllWithin P (suc m)) P (λ a. pure (acc ++ (a ∷ []))) item each
          (λ a k.
            Post-pure (AllWithin P (suc m)) (acc ++ (a ∷ []))
              (All-push acc a h.0 k, omega (arith, h.1, length-append acc (a ∷ [])))))
        (λ more k.
          subst (λ (l : ℕ). Post (repeat n (push item) more) (AllWithin P l)) (omega arith)
            (repeat-Post n (suc m) more k))

  pub Post-items : (limit : ℕ) → Post (read_items limit item) (AllWithin P limit)
  unfolding read_items
  Post-items limit =
      Post-bind (AllWithin P limit) (λ n. Unit) (λ n. when (leb n limit) (repeat n (push item) []))
        read_array_header (Post-any read_array_header)
        (λ n _. Post-when (AllWithin P limit) (leb n limit) (repeat n (push item) []) (λ t.
          Post-weaken (AllWithin P (n + 0)) (AllWithin P limit) (repeat n (push item) [])
            (λ items k. (k.0, ground (arith, k.1))) (repeat-Post n 0 [] (tt, omega arith))))
