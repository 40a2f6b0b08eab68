-- ===== src/Cache/ArrayList.antt =====
-- The array list of github.com/emirpasic/gods that cache/RtpQueue.go uses: its operations, with what
-- its documentation says of them in terms of the values that it holds.
use rtp_http_flv.Prelude.{ℕ, zero, suc, ◌≡◌, refl, Option, List, [], ◌∷◌, ◌++◌, length, get_elem?}

-- `Set`: at an index in range it replaces, at the length it appends, beyond it does nothing.
abbrev pub set_or_append {ℓ} : {A : Type ℓ} → List A → ℕ → A → List A
set_or_append [] zero a = a ∷ []
set_or_append [] (suc i) a = []
set_or_append (x ∷ xs) zero a = a ∷ xs
set_or_append (x ∷ xs) (suc i) a = x ∷ set_or_append xs i a

-- `Remove`: out of range it does nothing.
abbrev pub remove_at {ℓ} : {A : Type ℓ} → List A → ℕ → List A
remove_at [] i = []
remove_at (x ∷ xs) zero = xs
remove_at (x ∷ xs) (suc i) = x ∷ remove_at xs i

pub record ArrayList (A : Type 0) : Type 1 where
  pub Carrier : Type 0
  pub new : Carrier
  pub size : Carrier → ℕ
  -- the element, or `none` for `false` in the second result
  pub get : Carrier → ℕ → Option A
  pub set : Carrier → ℕ → A → Carrier
  pub add : Carrier → A → Carrier
  pub remove : Carrier → ℕ → Carrier
  pub values : Carrier → List A
  pub values-new : values new ≡ []
  pub size_lem : (l : Carrier) → size l ≡ length (values l)
  pub get_lem : (l : Carrier) (i : ℕ) → get l i ≡ get_elem? (values l) i
  pub values-set : (l : Carrier) (i : ℕ) (a : A) → values (set l i a) ≡ set_or_append (values l) i a
  pub values-add : (l : Carrier) (a : A) → values (add l a) ≡ values l ++ a ∷ []
  pub values-remove : (l : Carrier) (i : ℕ) → values (remove l i) ≡ remove_at (values l) i

-- A list has these properties.
abbrev pub as_list : (A : Type 0) → ArrayList A
as_list A = record {
  Carrier = List A;
  new = [];
  size = length;
  get = get_elem?;
  set = set_or_append;
  add = λ l a. l ++ a ∷ [];
  remove = remove_at;
  values = λ l. l;
  values-new = refl;
  size_lem = λ l. refl;
  get_lem = λ l i. refl;
  values-set = λ l i a. refl;
  values-add = λ l a. refl;
  values-remove = λ l i. refl;
}
