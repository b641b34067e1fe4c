-- ===== src/Prelude/Text.antt =====
-- What the source uses of Python's `str`: prefixes, stripping, joining, the decimal digits of a
-- number, and `sorted` of texts, which Python compares by code point as `compare` does.
use Prim.Native.Nat.{Ordering}
use Prim.Native.String.{[] as empty, ◌∷◌ as cons, slice, compare, len}
use Prim.Native.Char.{Char, code}
pub use text.Mathlib.Text.{starts_with}
use text.Mathlib.TextEquality.{starts_with_iff}
use text.Mathlib.TextPositions.{slice-append_right, len-append}
use production_local_llm_inf.Prelude.{
  ℕ, zero, suc, ap, sym, ◌∙◌, ◌&&◌, ◌||◌, string_eq, ◌+◌, ◌/◌, ◌%◌, ◌≡◌, ◌⊎◌, inl, inr, Bool, true,
  false, List, [], ◌∷◌, ◌∈◌, String, concat, arith, ltb, nat_beq, filter, filter-mem, Eq, ◌==◌,
  if◌then◌else◌, not,
}

abbrev pub is_char : ℕ → Char → Bool
is_char n c = nat_beq (code c) n

-- `text.lstrip(c)`, `text.rstrip(c)` and `text.strip(c)` for one character.
unfoldable pub lstrip : ℕ → String → String
lstrip n empty = empty
lstrip n (cons c text) = if is_char n c then lstrip n text else cons c text

abbrev trim : Bool → Char → String → String
trim true c empty = empty
trim true c (cons d text) = cons c (cons d text)
trim false c text = cons c text

unfoldable pub rstrip : ℕ → String → String
rstrip n empty = empty
rstrip n (cons c text) = trim (is_char n c) c (rstrip n text)

unfoldable pub strip : ℕ → String → String
unfolding lstrip rstrip
strip n text = rstrip n (lstrip n text)

-- `text.removeprefix(prefix)`.
unfoldable pub removeprefix : String → String → String
removeprefix prefix text =
    if starts_with text prefix then slice text (len prefix) (len text) else text

pub concat-removeprefix :
    (prefix text : String)
    → starts_with text prefix ≡ true
    → concat prefix (removeprefix prefix text) ≡ text
unfolding removeprefix
concat-removeprefix prefix text h =
    let (rest, e) = (starts_with_iff text prefix).0 h in
    rw h (
      ap (λ t. concat prefix (slice t (len prefix) (len t))) (sym e)
      ∙ ap (λ t. concat prefix t)
          (ap (λ n. slice (concat prefix rest) (len prefix) n) (len-append prefix rest)
            ∙ slice-append_right prefix rest)
      ∙ e)

-- `text.endswith(suffix)`.
unfoldable pub ends_with : String → String → Bool
ends_with empty suffix = suffix == ""
ends_with (cons c text) suffix = cons c text == suffix || ends_with text suffix

-- `text.count(c)` for one character, and `text.isascii()`.
unfoldable pub count_char : ℕ → String → ℕ
count_char n empty = 0
count_char n (cons c text) = (if is_char n c then 1 else 0) + count_char n text

unfoldable pub is_ascii : String → Bool
is_ascii empty = true
is_ascii (cons c text) = ltb (code c) 128 && is_ascii text

-- `separator.join(texts)`.
unfoldable pub join : String → List String → String
join separator [] = ""
join separator (text ∷ []) = text
join separator (text ∷ next ∷ texts) =
    concat text (concat separator (join separator (next ∷ texts)))

abbrev digit : ℕ → String
digit d = slice "0123456789" d (d + 1)

-- The digits of a number; a number is fuel enough for its own digits.
unfoldable digits : ℕ → ℕ → String
digits zero n = digit n
digits (suc fuel) n =
    let rest = digits fuel (n / 10) in if ltb n 10 then digit n else concat rest (digit (n % 10))

-- `str(n)`.
unfoldable pub decimal : ℕ → String
unfolding digits
decimal n = digits n n

-- `str(b).lower()`.
abbrev pub lower_bool : Bool → String
lower_bool true = "true"
lower_bool false = "false"

abbrev pub before : String → String → Bool
before s t = elim (compare s t) [ Ordering.lt ↦ true | _ ↦ false ]

-- `sorted(xs, key=key)`, a stable sort.
module _ {A : Type 0} (key : A → String) where
  unfoldable insert_by : A → List A → List A
  insert_by x [] = x ∷ []
  insert_by x (y ∷ ys) = if before (key y) (key x) then y ∷ insert_by x ys else x ∷ y ∷ ys

  unfoldable pub sorted_by : List A → List A
  unfolding insert_by
  sorted_by [] = []
  sorted_by (x ∷ xs) = insert_by x (sorted_by xs)

  mem-insert_by : (x a : A) (xs : List A) → a ∈ insert_by x xs → (a ≡ x) ⊎ (a ∈ xs)
  unfolding insert_by
  mem-insert_by x a [] m = m
  mem-insert_by x a (y ∷ ys) m = ground (arith, mem-insert_by x a ys)

  insert_by-mem : (x a : A) (xs : List A) → (a ≡ x) ⊎ (a ∈ xs) → a ∈ insert_by x xs
  unfolding insert_by
  insert_by-mem x a [] m = m
  insert_by-mem x a (y ∷ ys) m = ground (arith, insert_by-mem x a ys)

  pub mem-sorted_by : (a : A) (xs : List A) → a ∈ sorted_by xs → a ∈ xs
  unfolding sorted_by
  mem-sorted_by a [] m = m
  mem-sorted_by a (x ∷ xs) m =
      ground (arith, mem-insert_by x a (sorted_by xs) m, mem-sorted_by a xs)

  pub sorted_by-mem : (a : A) (xs : List A) → a ∈ xs → a ∈ sorted_by xs
  unfolding sorted_by
  sorted_by-mem a [] m = m
  sorted_by-mem a (x ∷ xs) m =
      insert_by-mem x a (sorted_by xs)
        (elim m [ inl e ↦ inl e | inr k ↦ inr (sorted_by-mem a xs k) ])

-- `sorted(texts)`.
abbrev pub sorted_texts : List String → List String
sorted_texts = sorted_by (λ text. text)

-- `set(xs)`, in the order of the first occurrences.
unfoldable pub distinct : {A : Type 0} ⦃e : Eq A⦄ → List A → List A
distinct [] = []
distinct (x ∷ xs) = x ∷ filter (λ y. not (y == x)) (distinct xs)

pub distinct-mem : {A : Type 0} ⦃e : Eq A⦄ (a : A) (xs : List A) → a ∈ xs → a ∈ distinct xs
unfolding distinct
distinct-mem a [] m = m
distinct-mem ⦃e⦄ a (x ∷ xs) m =
    let rest = filter-mem (λ y. not (y == x)) (distinct xs) a in
    ground (arith, e.beq_iff a x, distinct-mem a xs, rest)
