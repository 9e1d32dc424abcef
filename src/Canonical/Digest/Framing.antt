-- ===== src/Canonical/Digest/Framing.antt =====
-- On frame of crates/reference-core/src/canonical.rs: bytes behind their length.
use reference_library.Common.{
  ℕ, zero, suc, ◌*◌, ◌/◌, ◌%◌, ◌<◌, ◌≡◌, refl, sym, ◌∙◌, List, [], ◌∷◌, ◌++◌, append_assoc, length,
  length-append, All, arith,
}
use reference_library.Canonical.Digest.{be_bytes, framed}

module _ {ℓ} {A : Type ℓ} where
  -- Lists that begin with parts of one length are equal part by part.
  pub append-injective :
      (xs xs' ys ys' : List A)
      → length xs ≡ length xs'
      → xs ++ ys ≡ xs' ++ ys'
      → (xs ≡ xs') × (ys ≡ ys')
  append-injective [] [] ys ys' l h = (refl, h)
  append-injective [] (x' ∷ xs') ys ys' l h = absurd (omega (arith, l))
  append-injective (x ∷ xs) [] ys ys' l h = absurd (omega (arith, l))
  append-injective (x ∷ xs) (x' ∷ xs') ys ys' l h =
      let first : x ≡ x' = cc in
      let (same, rest) = append-injective xs xs' ys ys' (omega (arith, l)) cc in
      ((λ i. first i ∷ same i), rest)

length-be_bytes : (width n : ℕ) → length (be_bytes width n) ≡ width
unfolding be_bytes
length-be_bytes zero n = refl
length-be_bytes (suc width) n = omega (
  arith,
  length-append (be_bytes width (n / 256)) (n % 256 ∷ []),
  length-be_bytes width (n / 256),
)

-- `256 ^ width`
abbrev pub bytes_bound : (width : ℕ) → ℕ
bytes_bound zero = 1
bytes_bound (suc width) = 256 * bytes_bound width

pub be_bytes-injective :
    (width m n : ℕ)
    → m < bytes_bound width
    → n < bytes_bound width
    → be_bytes width m ≡ be_bytes width n
    → m ≡ n
unfolding be_bytes
be_bytes-injective zero m n p q h = omega (arith, p, q)
be_bytes-injective (suc width) m n p q h =
    let (front, last) =
      append-injective (be_bytes width (m / 256)) (be_bytes width (n / 256)) (m % 256 ∷ [])
        (n % 256 ∷ []) (length-be_bytes width (m / 256) ∙ sym (length-be_bytes width (n / 256)))
        h in
    let low : m % 256 ≡ n % 256 = cc in
    let high : m / 256 ≡ n / 256 =
      be_bytes-injective width (m / 256) (n / 256) (omega (arith, p)) (omega (arith, q)) front in
    omega (arith, low, high)

-- What is framed is told from what follows.
pub framed-injective :
    (xs ys rest rest' : List ℕ)
    → length xs < bytes_bound 8
    → length ys < bytes_bound 8
    → framed xs ++ rest ≡ framed ys ++ rest'
    → (xs ≡ ys) × (rest ≡ rest')
framed-injective xs ys rest rest' p q h =
    let header = be_bytes 8 (length xs) in
    let header' = be_bytes 8 (length ys) in
    let (same, behind) =
      append-injective header header' (xs ++ rest) (ys ++ rest')
        (length-be_bytes 8 (length xs) ∙ sym (length-be_bytes 8 (length ys)))
        (sym (append_assoc header xs rest) ∙ h ∙ append_assoc header' ys rest') in
    append-injective xs ys rest rest' (be_bytes-injective 8 (length xs) (length ys) p q same) behind

abbrev pub frames : List (List ℕ) → List ℕ
frames [] = []
frames (p ∷ ps) = framed p ++ frames ps

abbrev pub AreShort : List (List ℕ) → Type 0
AreShort = All (λ p. length p < bytes_bound 8)

-- So are as many frames as are counted.
pub frames-injective :
    (ps qs : List (List ℕ)) (rest rest' : List ℕ)
    → length ps ≡ length qs
    → AreShort ps
    → AreShort qs
    → frames ps ++ rest ≡ frames qs ++ rest'
    → (ps ≡ qs) × (rest ≡ rest')
frames-injective [] [] rest rest' l s t h = (refl, h)
frames-injective [] (q ∷ qs) rest rest' l s t h = absurd (omega (arith, l))
frames-injective (p ∷ ps) [] rest rest' l s t h = absurd (omega (arith, l))
frames-injective (p ∷ ps) (q ∷ qs) rest rest' l s t h =
    let (first, behind) = framed-injective p q (frames ps ++ rest) (frames qs ++ rest') s.0 t.0 (
      sym (append_assoc (framed p) (frames ps) rest)
      ∙ h
      ∙ append_assoc (framed q) (frames qs) rest') in
    let (same, after) = frames-injective ps qs rest rest' (omega (arith, l)) s.1 t.1 behind in
    ((λ i. first i ∷ same i), after)

be_bytes_short : (n : ℕ) → length (be_bytes 8 n) < bytes_bound 8
be_bytes_short n = omega (arith, length-be_bytes 8 n)

-- The frame of a number is told from what follows.
pub framed_number-injective :
    (m n : ℕ) (rest rest' : List ℕ)
    → m < bytes_bound 8
    → n < bytes_bound 8
    → framed (be_bytes 8 m) ++ rest ≡ framed (be_bytes 8 n) ++ rest'
    → (m ≡ n) × (rest ≡ rest')
framed_number-injective m n rest rest' p q h =
    let (same, behind) =
      framed-injective (be_bytes 8 m) (be_bytes 8 n) rest rest' (be_bytes_short m)
        (be_bytes_short n) h in
    (be_bytes-injective 8 m n p q same, behind)
