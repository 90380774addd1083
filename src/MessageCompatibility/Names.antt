-- ===== src/MessageCompatibility/Names.antt =====
-- px4_ros2_cpp/src/components/message_compatibility_check.cpp: the type that is inferred from the
-- name of a topic. `std::toupper` is the C library's: it is an argument.
pub mod Laws
use px4_ros.Base.{
  ℕ, zero, suc, Bool, true, false, ◌||◌, List, [], ◌∷◌, Option, none, some, ◌==◌, if◌then◌else◌,
  get_elem?, take, any, length, value_or,
}

-- `s[n] = c` at an index inside of the string.
unfoldable pub set : List ℕ → ℕ → ℕ → List ℕ
set [] n c = []
set (x ∷ s) zero c = c ∷ s
set (x ∷ s) (suc n) c = x ∷ set s n c

-- `c == '-' || c == '_'`
abbrev pub is_separator : ℕ → Bool
is_separator c = c == b'-' || c == b'_'

module _ (to_upper : ℕ → ℕ) where
  -- The loop of `snakeToCamelCase` over the string that it overwrites: `left` characters are to
  -- be read, from index `i` on, and `n` are written.
  unfoldable pub camel_loop : ℕ → ℕ → Bool → ℕ → List ℕ → ℕ × List ℕ
  unfolding set
  camel_loop zero i tail n s = (n, s)
  camel_loop (suc left) i tail n s =
      let c = value_or (get_elem? s i) 0 in
      let skip = camel_loop left (suc i) false n s in
      let keep = camel_loop left (suc i) true (suc n) (set s n c) in
      let raise = camel_loop left (suc i) true (suc n) (set s n (to_upper c)) in
      if is_separator c then skip else (if tail then keep else raise)

  -- `snakeToCamelCase`
  unfoldable pub snake_to_camel_case : List ℕ → List ℕ
  unfolding camel_loop
  snake_to_camel_case s = let (n, s') = camel_loop (length s) 0 false 0 s in take n s'

-- `find_last_of('/')` and `substr`: what stands behind the last slash, or the whole name.
unfoldable pub after_last_slash : List ℕ → List ℕ
after_last_slash [] = []
after_last_slash (c ∷ name) =
    let rest = after_last_slash name in
    if any (λ d. d == b'/') name then rest else (if c == b'/' then name else c ∷ name)
