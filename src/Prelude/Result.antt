-- ===== src/Prelude/Result.antt =====
-- A result or the exception raised in its place, over any type of exceptions.
use production_local_llm_inf.Prelude.{
  ◌≡◌, refl, Bool, true, false, List, [], ◌∷◌, ◌∈◌, ◌⊎◌, inl, inr, arith, sym, ap, ◌∙◌,
}

pub data Result {ℓ κ} (E : Type ℓ) (A : Type κ) : Type (ℓ ⊔ κ) where
  ok : A → Result E A
  raise : E → Result E A

infixl 5 ◌>>=◌ ◌>>◌
abbrev pub ◌>>=◌ {ℓ κ μ} :
    {E : Type ℓ} {A : Type κ} {B : Type μ} → Result E A → (A → Result E B) → Result E B
raise error >>= next = raise error
ok a >>= next = next a

abbrev pub ◌>>◌ {ℓ κ} : {E : Type ℓ} {B : Type κ} → Result E (Unit {0}) → Result E B → Result E B
first >> rest = first >>= λ _. rest

-- A computation that raises nothing.
abbrev pub Returns {ℓ κ} : {E : Type ℓ} {A : Type κ} → Result E A → Type (ℓ ⊔ κ)
Returns {A} m = (a : A) × (m ≡ ok a)

-- `if test: raise error`.
abbrev pub raise_if {ℓ} : {E : Type ℓ} → Bool → E → Result E (Unit {0})
raise_if true e = raise e
raise_if false e = ok tt

-- Inversion of a successful bind.
pub >>=-eq-ok {ℓ κ μ} :
    {E : Type ℓ} {A : Type κ} {B : Type μ} (m : Result E A) (f : A → Result E B) {b : B}
    → (m >>= f) ≡ ok b
    → (a : A) × (m ≡ ok a) × (f a ≡ ok b)
>>=-eq-ok (raise error) next h = cc
>>=-eq-ok (ok a) next h = (a, refl, h)

-- `for x in xs: ...`, a loop that ends early only by an exception.
unfoldable pub for_each {ℓ} :
    {E : Type ℓ} {A : Type 0} → (A → Result E (Unit {0})) → List A → Result E (Unit {0})
for_each body [] = ok tt
for_each body (x ∷ xs) = body x >>= λ _. for_each body xs

-- A loop that ends raised nothing at any element.
pub for_each-ok {ℓ} :
    {E : Type ℓ} {A : Type 0} (body : A → Result E (Unit {0})) (xs : List A)
    → for_each body xs ≡ ok tt
    → (a : A) → a ∈ xs
    → body a ≡ ok tt
unfolding for_each
for_each-ok body [] h a m = absurd m
for_each-ok body (x ∷ xs) h a m =
    let (u, first, rest) = >>=-eq-ok (body x) (λ _. for_each body xs) h in
    ground (arith, for_each-ok body xs rest a, first)

pub raise_if-ok {ℓ} : {E : Type ℓ} (b : Bool) (error : E) → raise_if b error ≡ ok tt → b ≡ false
raise_if-ok true error h = cc
raise_if-ok false error h = refl

-- Inversion of a step that returns nothing.
pub >>-eq-ok {ℓ κ} :
    {E : Type ℓ} {B : Type κ} (m : Result E (Unit {0})) (k : Result E B) {b : B}
    → (m >>= λ _. k) ≡ ok b
    → (m ≡ ok tt) × (k ≡ ok b)
>>-eq-ok (ok tt) k h = (refl, h)
>>-eq-ok (raise e) k h = cc

-- `[body(x) for x in xs]`, where a body may raise.
unfoldable pub traverse {ℓ} :
    {E : Type ℓ} {A B : Type 0} → (A → Result E B) → List A → Result E (List B)
traverse body [] = ok []
traverse body (x ∷ xs) = body x >>= λ y. traverse body xs >>= λ ys. ok (y ∷ ys)

pub traverse-ok {ℓ} :
    {E : Type ℓ} {A B : Type 0} (body : A → Result E B) (xs : List A)
    → ((a : A) → a ∈ xs → (b : B) × (body a ≡ ok b))
    → (bs : List B) × (traverse body xs ≡ ok bs)
unfolding traverse
traverse-ok body [] h = ([], refl)
traverse-ok body (x ∷ xs) h =
    let (y, e) = h x (inl refl) in
    let (ys, es) = traverse-ok body xs (λ a m. h a (inr m)) in (y ∷ ys, rw (e, es))

-- Each result comes from an element.
pub mem-traverse {ℓ} :
    {E : Type ℓ} {A B : Type 0} (body : A → Result E B) (xs : List A) {bs : List B}
    → traverse body xs ≡ ok bs
    → (b : B) → b ∈ bs
    → (a : A) × (a ∈ xs) × (body a ≡ ok b)
unfolding traverse
mem-traverse body [] {bs = bs} h b m = absurd (ground arith)
mem-traverse {E = E} {A = A} {B = B} body (x ∷ xs) {bs = bs} h b m =
    let (y, first, h₁) = >>=-eq-ok (body x) _ h in
    let (ys, rest, h₂) = >>=-eq-ok (traverse body xs) (λ ys. ok (y ∷ ys)) h₁ in
    let same : bs ≡ y ∷ ys = cc in place y ys (rw same at m) first (mem-traverse body xs rest b)
  where
    place :
        (y : B) (ys : List B)
        → (b ≡ y) ⊎ (b ∈ ys)
        → body x ≡ ok y
        → (b ∈ ys → (a : A) × (a ∈ xs) × (body a ≡ ok b))
        → (a : A) × ((a ≡ x) ⊎ (a ∈ xs)) × (body a ≡ ok b)
    place y ys (inl e) first rec = (x, inl refl, first ∙ ap ok (sym e))
    place y ys (inr m') first rec = let (a, k, q) = rec m' in (a, inr k, q)

pub Returns->>= {ℓ κ μ} :
    {E : Type ℓ} {A : Type κ} {B : Type μ} (m : Result E A) (k : A → Result E B)
    → Returns m
    → ((a : A) → Returns (k a))
    → Returns (m >>= k)
Returns->>= (ok a) k r rest = rest a
Returns->>= (raise e) k (a, h) rest = absurd (ground arith)
