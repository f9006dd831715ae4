-- ===== src/Prelude/Lists.antt =====
-- Lists measured and indexed by native numbers, and byte arrays: `read_bytes` and `write_bytes` are
-- `memcpy` out of and into an array.
use Prim.Native.Nat.{ℕ, zero, suc, ◌+◌, ◌-◌, ◌≤◌, ◌<◌, min}
use Prim.Native.Nat.add
use mathlib.Core.Path.{◌≡◌, refl, ap, ap₂}
use mathlib.Core.List.{List, [], ◌∷◌, ◌++◌}
use mathlib.Core.Bool.{◌&&◌}
use mathlib.Core.Option.{Option, none, some}
use native.Mathlib.Omega.{arith}
use irl_srt_server.Prelude.Tests.{ltb, leb, if◌then◌else◌}

module _ {ℓ} {A : Type ℓ} where
  abbrev pub length : List A → ℕ
  length [] = 0
  length (x ∷ xs) = suc (length xs)

  abbrev pub get_elem? : List A → ℕ → Option A
  get_elem? [] i = none
  get_elem? (x ∷ xs) zero = some x
  get_elem? (x ∷ xs) (suc i) = get_elem? xs i

  -- A write out of bounds changes nothing.
  abbrev pub set : List A → ℕ → A → List A
  set [] i v = []
  set (x ∷ xs) zero v = v ∷ xs
  set (x ∷ xs) (suc i) v = x ∷ set xs i v

  abbrev pub get_or : List A → ℕ → A → A
  get_or [] i d = d
  get_or (x ∷ xs) zero d = x
  get_or (x ∷ xs) (suc i) d = get_or xs i d

  abbrev pub take : ℕ → List A → List A
  take zero xs = []
  take (suc n) [] = []
  take (suc n) (x ∷ xs) = x ∷ take n xs

  abbrev pub drop : ℕ → List A → List A
  drop zero xs = xs
  drop (suc n) [] = []
  drop (suc n) (x ∷ xs) = drop n xs

  abbrev pub replicate : ℕ → A → List A
  replicate zero a = []
  replicate (suc n) a = a ∷ replicate n a

module _ {ℓ} {A : Type ℓ} where
  pub length-append : (xs ys : List A) → length (xs ++ ys) ≡ length xs + length ys
  length-append [] ys = omega arith
  length-append (x ∷ xs) ys = omega (arith, length-append xs ys)

  pub length-set : (xs : List A) (i : ℕ) (v : A) → length (set xs i v) ≡ length xs
  length-set [] i v = refl
  length-set (x ∷ xs) zero v = refl
  length-set (x ∷ xs) (suc i) v = ap suc (length-set xs i v)

  pub length-take : (n : ℕ) (xs : List A) → length (take n xs) ≡ min n (length xs)
  length-take zero xs = omega arith
  length-take (suc n) [] = omega arith
  length-take (suc n) (x ∷ xs) = omega (arith, length-take n xs)

  pub take-all : (n : ℕ) (xs : List A) → length xs ≤ n → take n xs ≡ xs
  take-all zero [] h = refl
  take-all zero (x ∷ xs) h = absurd (omega arith)
  take-all (suc n) [] h = refl
  take-all (suc n) (x ∷ xs) h = ap (◌∷◌ x) (take-all n xs (omega arith))

  pub length-drop : (n : ℕ) (xs : List A) → length (drop n xs) ≡ length xs - n
  length-drop zero xs = omega arith
  length-drop (suc n) [] = omega arith
  length-drop (suc n) (x ∷ xs) = omega (arith, length-drop n xs)

  pub length-replicate : (n : ℕ) (a : A) → length (replicate n a) ≡ n
  length-replicate zero a = refl
  length-replicate (suc n) a = ap suc (length-replicate n a)

  pub get_or-append :
      (xs ys : List A) (i : ℕ) (d : A)
      → get_or (xs ++ ys) i d
        ≡ (if ltb i (length xs) then get_or xs i d else get_or ys (i - length xs) d)
  get_or-append [] ys i d = ground arith
  get_or-append (x ∷ xs) ys zero d = ground arith
  get_or-append (x ∷ xs) ys (suc i) d = ground (arith, get_or-append xs ys i d)

  pub get_or-take :
      (n : ℕ) (xs : List A) (i : ℕ) (d : A) → i < n → get_or (take n xs) i d ≡ get_or xs i d
  get_or-take zero xs i d h = absurd (omega arith)
  get_or-take (suc n) [] i d h = refl
  get_or-take (suc n) (x ∷ xs) zero d h = refl
  get_or-take (suc n) (x ∷ xs) (suc i) d h = get_or-take n xs i d (omega arith)

  pub get_or-drop :
      (n : ℕ) (xs : List A) (i : ℕ) (d : A) → get_or (drop n xs) i d ≡ get_or xs (n + i) d
  get_or-drop zero xs i d = ap (λ k. get_or xs k d) (omega arith)
  get_or-drop (suc n) [] i d = refl
  get_or-drop (suc n) (x ∷ xs) i d = ground (arith, get_or-drop n xs i d)

  pub get_or-set :
      (xs : List A) (i j : ℕ) (v d : A)
      → i < length xs
      → get_or (set xs i v) j d ≡ (if leb i j && leb j i then v else get_or xs j d)
  get_or-set [] i j v d h = absurd (omega arith)
  get_or-set (x ∷ xs) zero zero v d h = ground arith
  get_or-set (x ∷ xs) zero (suc j) v d h = ground arith
  get_or-set (x ∷ xs) (suc i) zero v d h = ground arith
  get_or-set (x ∷ xs) (suc i) (suc j) v d h = ground (arith, get_or-set xs i j v d)

-- `n` elements of `xs` from index `p` on.
module _ {ℓ} {A : Type ℓ} (d : A) where
  unfoldable pub read_bytes : List A → ℕ → ℕ → List A
  read_bytes xs p zero = []
  read_bytes xs p (suc n) = get_or xs p d ∷ read_bytes xs (p + 1) n

  pub length-read_bytes : (xs : List A) (p n : ℕ) → length (read_bytes xs p n) ≡ n
  unfolding read_bytes
  length-read_bytes xs p zero = refl
  length-read_bytes xs p (suc n) = ap suc (length-read_bytes xs (p + 1) n)

  pub read_bytes_ext :
      (xs ys : List A) (p q n : ℕ)
      → ((k : ℕ) → k < n → get_or xs (p + k) d ≡ get_or ys (q + k) d)
      → read_bytes xs p n ≡ read_bytes ys q n
  unfolding read_bytes
  read_bytes_ext xs ys p q zero h = refl
  read_bytes_ext xs ys p q (suc n) h =
      ap₂ ◌∷◌ (ground (arith, h 0))
        (read_bytes_ext xs ys (p + 1) (q + 1) n (λ k lt. ground (arith, h (k + 1))))

  pub read_bytes-add :
      (xs : List A) (p m n : ℕ)
      → read_bytes xs p (m + n) ≡ read_bytes xs p m ++ read_bytes xs (p + m) n
  unfolding read_bytes
  read_bytes-add xs p zero n = ground arith
  read_bytes-add xs p (suc m) n = rw add.suc (
      ap (λ t. get_or xs p d ∷ t)
        (rw (read_bytes-add xs (p + 1) m n)
          (ap (λ k. read_bytes xs (p + 1) m ++ read_bytes xs k n) (omega arith))))

module _ {A : Type 0} where
  unfoldable pub write_bytes : List A → ℕ → List A → List A
  write_bytes xs p [] = xs
  write_bytes xs p (b ∷ bs) = write_bytes (set xs p b) (p + 1) bs

  pub length-write_bytes : (bs xs : List A) (p : ℕ) → length (write_bytes xs p bs) ≡ length xs
  unfolding write_bytes
  length-write_bytes [] xs p = refl
  length-write_bytes (b ∷ bs) xs p =
      omega (arith, length-write_bytes bs (set xs p b) (p + 1), length-set xs p b)

  -- After the copy the target range holds the source, and nothing else changed.
  pub get_or-write_bytes :
      (bs xs : List A) (p j : ℕ) (d : A)
      → p + length bs ≤ length xs
      → get_or (write_bytes xs p bs) j d
        ≡ (if leb p j && ltb j (p + length bs) then get_or bs (j - p) d else get_or xs j d)
  unfolding write_bytes
  get_or-write_bytes [] xs p j d h = ground arith
  get_or-write_bytes (b ∷ bs) xs p j d h = ground (
    arith,
    get_or-write_bytes bs (set xs p b) (p + 1) j d,
    get_or-set xs p j b d,
    length-set xs p b,
  )
