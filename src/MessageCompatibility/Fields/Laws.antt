-- ===== src/MessageCompatibility/Fields/Laws.antt =====
-- The reading of nested definitions ends exactly where the definitions are not recursive.
use px4_ros.Base.{
  ℕ, zero, suc, ◌<◌, ◌≤◌, ◌≡◌, refl, sym, ap, ◌∙◌, inl, inr, Bool, true, false, List, [], ◌∷◌, ◌++◌,
  Option, some, arith, All, Option-cases,
}
use px4_ros.MessageCompatibility.Fields.{
  FieldMatch, is_constant, is_nested, field_line, add_field, add_fields, filename,
  message_fields_str,
}

-- Two ways to read the nested types that agree where they are asked.
add_field_agree :
    (constant nested : Bool) (line : List ℕ) (x y rest : Option (List ℕ))
    → (nested ≡ true → x ≡ y)
    → add_field constant nested line x rest ≡ add_field constant nested line y rest
add_field_agree true nested line x y rest p = refl
add_field_agree false true line x y rest p = ap (λ z. add_field false true line z rest) (p refl)
add_field_agree false false line x y rest p = refl

add_fields_agree :
    (f g : List ℕ → Option (List ℕ)) (ms : List FieldMatch)
    → All (λ m. is_nested m ≡ true → f m.type_name ≡ g m.type_name) ms
    → add_fields f ms ≡ add_fields g ms
unfolding add_fields
add_fields_agree f g [] h = refl
add_fields_agree f g (m ∷ ms) h =
    add_field_agree (is_constant m) (is_nested m) (field_line m) (f m.type_name) (g m.type_name)
      (add_fields f ms) h.0
    ∙ ap (add_field (is_constant m) (is_nested m) (field_line m) (g m.type_name))
        (add_fields_agree f g ms h.1)

-- The text of all fields is there if that of every nested type is.
abbrev HasText : Option (List ℕ) → Type 0
HasText o = (s : List ℕ) × (o ≡ some s)

add_field_some :
    (constant nested : Bool) (line : List ℕ) (x rest : Option (List ℕ))
    → (nested ≡ true → HasText x)
    → HasText rest
    → HasText (add_field constant nested line x rest)
add_field_some true nested line x rest p q = q
add_field_some false true line x rest p (more, q) =
    let (text, e) = p refl in
    (
      line ++ text ++ more,
      ap (λ z. add_field false true line z rest) e ∙ ap (add_field false true line (some text)) q,
    )
add_field_some false false line x rest p (more, q) =
    (line ++ more, ap (add_field false false line x) q)

add_fields_some :
    (f : List ℕ → Option (List ℕ)) (ms : List FieldMatch)
    → All (λ m. is_nested m ≡ true → HasText (f m.type_name)) ms
    → HasText (add_fields f ms)
unfolding add_fields
add_fields_some f [] h = ([], refl)
add_fields_some f (m ∷ ms) h =
    add_field_some (is_constant m) (is_nested m) (field_line m) (f m.type_name) (add_fields f ms)
      h.0 (add_fields_some f ms h.1)

All-map {ℓ} :
    {A : Type ℓ} {P Q : A → Type ℓ} (xs : List A) → ((x : A) → P x → Q x) → All P xs → All Q xs
All-map [] f h = tt
All-map (x ∷ xs) f h = (f x h.0, All-map xs f h.1)

module _ (open_file : List ℕ → Option (List ℕ)) (field_matches : List ℕ → List FieldMatch)
    (msgs_dir : List ℕ) where
  abbrev read : ℕ → List ℕ → Option (List ℕ)
  read = message_fields_str open_file field_matches msgs_dir

  abbrev file : List ℕ → List ℕ
  file = filename open_file field_matches msgs_dir

  -- No definition contains itself: a nested type has a smaller rank. The generators of the message
  -- package refuse recursive definitions.
  abbrev pub IsRanked : (List ℕ → ℕ) → Type 0
  IsRanked rank =
      (t text : List ℕ)
      → open_file (file t) ≡ some text
      → All (λ m. is_nested m ≡ true → rank m.type_name < rank t) (field_matches text)

  module _ (rank : List ℕ → ℕ) (ranked : IsRanked rank) where
    -- A depth above the rank is enough.
    read_some : (depth : ℕ) (t : List ℕ) → rank t < depth → HasText (read depth t)
    unfolding message_fields_str
    read_some zero t h = absurd (omega arith)
    read_some (suc depth) t h = elim (Option-cases (open_file (file t))) [
      | inl e ↦ ([], rw (e, message_fields_str))
      | inr (text, e) ↦
          rw (e, message_fields_str)
            (add_fields_some (read depth) (field_matches text) (
              All-map (field_matches text)
                (λ m (smaller : is_nested m ≡ true → rank m.type_name < rank t).
                  λ n. read_some depth m.type_name (omega (arith, smaller n)))
                (ranked t text e)))
    ]

    -- All such depths give the same.
    read_agree :
        (depth more : ℕ) (t : List ℕ) → rank t < depth → depth ≤ more → read depth t ≡ read more t
    unfolding message_fields_str
    read_agree zero more t h k = absurd (omega arith)
    read_agree (suc depth) zero t h k = absurd (omega arith)
    read_agree (suc depth) (suc more) t h k = elim (Option-cases (open_file (file t))) [
      | inl e ↦ rw (e, message_fields_str)
      | inr (text, e) ↦
          rw (e, message_fields_str)
            (add_fields_agree (read depth) (read more) (field_matches text) (
              All-map (field_matches text)
                (λ m (smaller : is_nested m ≡ true → rank m.type_name < rank t).
                  λ n. read_agree depth more m.type_name (omega (arith, smaller n)) (omega arith))
                (ranked t text e)))
    ]

  -- If no message definition contains itself, which a rank of the types shows, then the text of a
  -- definition with those of its nested types is found, and is the same for every depth above the
  -- rank.
  pub message_fields_str_ends :
      (rank : List ℕ → ℕ) (t : List ℕ)
      → IsRanked rank
      → (s : List ℕ) × ((depth : ℕ)
          → rank t < depth
          → message_fields_str open_file field_matches msgs_dir depth t ≡ some s)
  message_fields_str_ends rank t ranked =
      let (s, e) = read_some rank ranked (suc (rank t)) t (omega arith) in
      (
        s,
        λ depth h.
            sym (read_agree rank ranked (suc (rank t)) depth t (omega arith) (omega arith)) ∙ e,
      )
