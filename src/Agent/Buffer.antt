-- ===== src/Agent/Buffer.antt =====
-- internal/agent/link/buffer.go: the samples that could not be sent, oldest first.
use serversmonitor.Prelude.{
  false, ℕ, zero, suc, ◌+◌, ◌-◌, ◌≤◌, ◌≡◌, refl, sym, ap, ◌∙◌, List, [], ◌∷◌, ◌++◌, if◌then◌else◌,
  ltb, arith, length, drop, length-append, length-drop, Bool-cases, inl, inr,
}
use mathlib.Core.List.{append_assoc, append-nil}

pub record Buffer (A : Type 0) : Type 0 where
  pub n : ℕ
  pub items : List A

suc-add : (j k : ℕ) → suc (j + k) ≡ suc j + k
suc-add j k = omega arith

module _ {A : Type 0} where
  unfoldable pub new_buffer : ℕ → Buffer A
  new_buffer n = record { n = n; items = [] }

  unfoldable pub push : Buffer A → A → Buffer A
  push b s =
      let items = b.items ++ s ∷ [] in
      record b { items = if ltb b.n (length items) then drop (length items - b.n) items else items }

  -- Drain returns what was buffered and leaves the buffer empty.
  unfoldable pub drain : Buffer A → Buffer A × List A
  drain b = (record b { items = [] }, b.items)

  unfoldable pub push_all : Buffer A → List A → Buffer A
  push_all b [] = b
  push_all b (s ∷ ss) = push_all (push b s) ss

  drop-append_le : (k : ℕ) (xs ys : List A) → k ≤ length xs → drop k (xs ++ ys) ≡ drop k xs ++ ys
  drop-append_le zero xs ys h = refl
  drop-append_le (suc k) [] ys h = absurd (omega arith)
  drop-append_le (suc k) (x ∷ xs) ys h = drop-append_le k xs ys (omega arith)

  drop-nil : (k : ℕ) → drop {A = A} k [] ≡ []
  drop-nil zero = refl
  drop-nil (suc k) = refl

  drop-drop : (k j : ℕ) (xs : List A) → drop k (drop j xs) ≡ drop (j + k) xs
  drop-drop k zero xs = ap (λ i. drop i xs) (omega arith)
  drop-drop k (suc j) [] = drop-nil k ∙ sym (drop-nil (suc j + k))
  drop-drop k (suc j) (x ∷ xs) = drop-drop k j xs ∙ ap (λ i. drop {A = A} i (x ∷ xs)) (suc-add j k)

  -- The last n of a list.
  abbrev pub last_items : ℕ → List A → List A
  last_items n xs = drop (length xs - n) xs

  push-last_items : (b : Buffer A) (s : A) → (push b s).items ≡ last_items b.n (b.items ++ s ∷ [])
  unfolding push
  push-last_items b s =
      let items = b.items ++ s ∷ [] in
      elim (Bool-cases (ltb b.n (length items))) [
        | inl e ↦ rw e
        | inr e ↦ rw e (ap (λ k. drop k items) (all_fit (length items) e))
      ]
    where
      all_fit : (m : ℕ) → ltb b.n m ≡ false → 0 ≡ m - b.n
      all_fit m e = ground arith

  last_items-append :
      (n : ℕ) (xs ys : List A) → last_items n (last_items n xs ++ ys) ≡ last_items n (xs ++ ys)
  last_items-append n xs ys =
      let k = length xs - n in
      ap (last_items n) (sym (drop-append_le k xs ys (omega arith)))
      ∙ drop-drop (length (drop k (xs ++ ys)) - n) k (xs ++ ys)
      ∙ ap (λ i. drop i (xs ++ ys)) (omega (arith, length-drop k (xs ++ ys), length-append xs ys))

  push_all-n : (b : Buffer A) (ss : List A) → (push_all b ss).n ≡ b.n
  unfolding push_all push
  push_all-n b [] = refl
  push_all-n b (s ∷ ss) = push_all-n (push b s) ss

  length-last_items : (n : ℕ) (xs : List A) → length (last_items n xs) ≤ n
  length-last_items n xs = omega (arith, length-drop (length xs - n) xs)

  -- Pushing samples into a buffer that holds at most n leaves the last n of what it held and of the
  -- samples, in order, and so never more than n.
  pub push_all-last_items :
      (b : Buffer A) (ss : List A)
      → length b.items ≤ b.n
      → ((push_all b ss).items ≡ last_items b.n (b.items ++ ss))
        × (length (push_all b ss).items ≤ b.n)
  unfolding push_all push
  push_all-last_items b [] fits =
      (sym (all_kept b.items fits) ∙ ap (last_items b.n) (sym (append-nil b.items)), fits)
    where
      none_dropped : (xs : List A) → length xs ≤ b.n → 0 ≡ length xs - b.n
      none_dropped xs h = omega arith

      all_kept : (xs : List A) → length xs ≤ b.n → last_items b.n xs ≡ xs
      all_kept xs h = ap (λ k. drop k xs) (sym (none_dropped xs h))
  push_all-last_items b (s ∷ ss) fits =
      let one = push-last_items b s in
      let rest =
        push_all-last_items (push b s) ss (rw one (length-last_items b.n (b.items ++ s ∷ []))) in
      (
        rest.0
            ∙ ap (λ xs. last_items b.n (xs ++ ss)) one
            ∙ last_items-append b.n (b.items ++ s ∷ []) ss
            ∙ ap (last_items b.n) (append_assoc b.items (s ∷ []) ss),
        rest.1,
      )
