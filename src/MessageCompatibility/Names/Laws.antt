-- ===== src/MessageCompatibility/Names/Laws.antt =====
-- The conversion in place gives the camel case of the name: the parts between separators, each
-- with its first character raised. It writes no further than it has read.
use mathlib.Core.List.{append-nil, append_assoc}
use px4_ros.Base.{
  ℕ, zero, suc, ◌+◌, ◌≤◌, ◌<◌, ◌≡◌, refl, sym, ap, ◌∙◌, Bool, true, false, List, [], ◌∷◌, ◌++◌,
  arith, if◌then◌else◌, get_elem?, take, drop, length, value_or,
}
use px4_ros.MessageCompatibility.Names.{set, is_separator, camel_loop, snake_to_camel_case}

-- The characters that are still to be read, and those that were written, under one write.
length-set : (s : List ℕ) (n c : ℕ) → length (set s n c) ≡ length s
unfolding set
length-set [] n c = refl
length-set (x ∷ s) zero c = refl
length-set (x ∷ s) (suc n) c = ap suc (length-set s n c)

drop-set : (s : List ℕ) (n i c : ℕ) → n < i → drop i (set s n c) ≡ drop i s
unfolding set
drop-set [] n i c h = refl
drop-set (x ∷ s) n zero c h = absurd (omega arith)
drop-set (x ∷ s) zero (suc i) c h = refl
drop-set (x ∷ s) (suc n) (suc i) c h = drop-set s n i c (omega arith)

take-set : (s : List ℕ) (n c : ℕ) → n < length s → take (suc n) (set s n c) ≡ take n s ++ c ∷ []
unfolding set
take-set [] n c h = absurd (omega arith)
take-set (x ∷ s) zero c h = refl
take-set (x ∷ s) (suc n) c h = ap (◌∷◌ x) (take-set s n c (omega arith))

drop-lt :
    (s : List ℕ) (i : ℕ) → i < length s → drop i s ≡ value_or (get_elem? s i) 0 ∷ drop (suc i) s
drop-lt [] i h = absurd (omega arith)
drop-lt (x ∷ s) zero h = refl
drop-lt (x ∷ s) (suc i) h = drop-lt s i (omega arith)

drop-ge : (s : List ℕ) (i : ℕ) → length s ≤ i → drop i s ≡ []
drop-ge [] zero h = refl
drop-ge [] (suc i) h = refl
drop-ge (x ∷ s) zero h = absurd (omega arith)
drop-ge (x ∷ s) (suc i) h = drop-ge s i (omega arith)

-- The three ways on.
choose :
    (sep tail : Bool) (skip keep raise : ℕ × List ℕ) (before a b c : List ℕ)
    → take skip.0 skip.1 ≡ before ++ a
    → take keep.0 keep.1 ≡ before ++ b
    → take raise.0 raise.1 ≡ before ++ c
    → let r = if sep then skip else (if tail then keep else raise) in
      take r.0 r.1 ≡ before ++ (if sep then a else (if tail then b else c))
choose true tail skip keep raise before a b c p q r = p
choose false true skip keep raise before a b c p q r = q
choose false false skip keep raise before a b c p q r = r

module _ (to_upper : ℕ → ℕ) where
  -- The specification, on the characters alone.
  unfoldable pub camel_case : Bool → List ℕ → List ℕ
  camel_case tail [] = []
  camel_case tail (c ∷ s) =
      let skip = camel_case false s in
      let rest = camel_case true s in
      if is_separator c then skip else (if tail then c ∷ rest else to_upper c ∷ rest)

  -- One write, of the character `d`, and the rest of the loop.
  written :
      (i n d : ℕ) (s : List ℕ)
      → n ≤ i
      → i < length s
      → take (suc n) (set s n d) ++ camel_case true (drop (suc i) (set s n d))
        ≡ take n s ++ d ∷ camel_case true (drop (suc i) s)
  written i n d s h k =
      ap (λ r. take (suc n) (set s n d) ++ camel_case true r) (drop-set s n (suc i) d (omega arith))
      ∙ ap (λ r. r ++ camel_case true (drop (suc i) s)) (take-set s n d (omega arith))
      ∙ append_assoc (take n s) (d ∷ []) (camel_case true (drop (suc i) s))

  camel_loop_lem :
      (left i : ℕ) (tail : Bool) (n : ℕ) (s : List ℕ)
      → n ≤ i
      → i + left ≡ length s
      → let (n', s') = camel_loop to_upper left i tail n s in
        take n' s' ≡ take n s ++ camel_case tail (drop i s)
  unfolding camel_loop camel_case
  camel_loop_lem zero i tail n s h e =
      rw (drop-ge s i (omega arith), camel_case) (sym (append-nil (take n s)))
  camel_loop_lem (suc left) i tail n s h e =
      choose (is_separator c) tail _ _ _ (take n s) _ _ _
        (camel_loop_lem left (suc i) false n s (omega arith) (omega arith))
        (next c (camel_loop_lem left (suc i) true (suc n) (set s n c)))
        (next (to_upper c) (camel_loop_lem left (suc i) true (suc n) (set s n (to_upper c))))
      ∙ ap (λ r. take n s ++ camel_case tail r) (sym (drop-lt s i (omega arith)))
    where
      c : ℕ
      c = value_or (get_elem? s i) 0

      next :
          (d : ℕ)
          → let s' = set s n d in
            let r = camel_loop to_upper left (suc i) true (suc n) s' in
            (suc n ≤ suc i
              → suc i + left ≡ length s'
              → take r.0 r.1 ≡ take (suc n) s' ++ camel_case true (drop (suc i) s'))
            → take r.0 r.1 ≡ take n s ++ d ∷ camel_case true (drop (suc i) s)
      next d ih =
          ih (omega arith) (omega (arith, length-set s n d)) ∙ written i n d s h (omega arith)

-- The loop that overwrites the string while it reads it gives the camel case of the string as it
-- was: the characters other than separators, in order, the first of each part raised.
pub snake_to_camel_case-camel_case :
    (to_upper : ℕ → ℕ) (s : List ℕ) → snake_to_camel_case to_upper s ≡ camel_case to_upper false s
unfolding snake_to_camel_case
snake_to_camel_case-camel_case to_upper s =
    camel_loop_lem to_upper (length s) 0 false 0 s (omega arith) (omega arith)
