-- ===== src/Fields/Strings.antt =====
-- Strings that end in a null: primStringSize, primStringCat and primCopyFromTo of cmd/vm/Primitive.cc.
use mathlib.Core.List.{append_assoc}
use valutron.Prelude.{
  ℕ, zero, suc, ◌+◌, ◌-◌, ◌≤◌, ◌<◌, ◌^◌, ◌≡◌, refl, ap, ◌∙◌, ◌&&◌, List, [], ◌∷◌, ◌++◌, length, leb,
  if◌then◌else◌, arith, length-append,
}
use valutron.Prelude.Int.{ℤ, pos, negsuc, ◌+ℤ◌, ◌-ℤ◌}
use valutron.Outcome.{Outcome, done, dies, runs_on, ◌>>=◌}
use valutron.Word.{Word, unsigned, int_value, from_int}
use valutron.Fields.{to_int}

-- The bytes before the left-most null, as `strlen` counts them. Without a null it reads behind the string.
unfoldable pub c_string : List ℕ → Outcome (List ℕ)
c_string [] = dies
c_string (zero ∷ bytes) = done []
c_string (suc b ∷ bytes) = do rest ← c_string bytes; done (suc b ∷ rest)

unfoldable pub prim_string_size : List ℕ → Outcome Word
unfolding c_string from_int
prim_string_size src = do s ← c_string src; done (from_int (pos (length s)))

-- A new byte object is filled with nulls; the two strings are copied into all but the last byte.
unfoldable pub prim_string_cat : List ℕ → List ℕ → Outcome (List ℕ)
unfolding c_string
prim_string_cat src1 src2 = do s1 ← c_string src1; s2 ← c_string src2; done (s1 ++ s2 ++ 0 ∷ [])

abbrev pub take : ℕ → List ℕ → List ℕ
take zero bytes = []
take (suc n) [] = []
take (suc n) (b ∷ bytes) = b ∷ take n bytes

abbrev pub drop : ℕ → List ℕ → List ℕ
drop zero bytes = bytes
drop (suc n) [] = []
drop (suc n) (b ∷ bytes) = drop n bytes

-- `req` bytes from the `p`th on, or as many as there are before the null.
unfoldable pub copied_bytes : ℤ → ℕ → List ℕ → List ℕ
copied_bytes (pos req) p s =
    if leb 1 p && leb p (length s) && leb 1 req then take req (drop (p - 1) s) else []
copied_bytes (negsuc req) p s = []

-- What is copied of a string. (`req`, which is an `int`, is taken not to overflow.)
unfoldable pub copied : ℤ → ℤ → List ℕ → List ℕ
unfolding copied_bytes
copied (pos p) pos2 s = copied_bytes (pos2 +ℤ pos 1 -ℤ pos p) p s
copied (negsuc p) pos2 s = []

unfoldable pub prim_copy_from_to : List ℕ → Word → Word → Outcome (List ℕ)
unfolding c_string to_int int_value copied
prim_copy_from_to src from to = do
  s ← c_string src
  done (copied (to_int (int_value from)) (to_int (int_value to)) s ++ 0 ∷ [])

-- No byte of a string's contents is a null.
abbrev NoNull : List ℕ → Type 0
NoNull [] = Unit
NoNull (b ∷ s) = (0 < b) × NoNull s

abbrev Contents : Outcome (List ℕ) → Type 0
Contents (done s) = NoNull s
Contents dies = Unit
Contents runs_on = Unit

behind : (b : ℕ) (m : Outcome (List ℕ)) → Contents m → Contents (m >>= λ rest. done (suc b ∷ rest))
behind b (done s) h = (omega arith, h)
behind b dies h = tt
behind b runs_on h = tt

c_string-Contents : (bytes : List ℕ) → Contents (c_string bytes)
unfolding c_string
c_string-Contents [] = tt
c_string-Contents (zero ∷ bytes) = tt
c_string-Contents (suc b ∷ bytes) = behind b (c_string bytes) (c_string-Contents bytes)

c_string-NoNull : (bytes s : List ℕ) → c_string bytes ≡ done s → NoNull s
c_string-NoNull bytes s e = rw e at (c_string-Contents bytes)

-- A null behind contents makes a string of them.
c_string-terminated : (s : List ℕ) → NoNull s → c_string (s ++ 0 ∷ []) ≡ done s
unfolding c_string
c_string-terminated [] h = refl
c_string-terminated (zero ∷ s) h = absurd (omega (arith, h.0))
c_string-terminated (suc b ∷ s) h = rw (c_string-terminated s h.1) refl

NoNull-append : (s t : List ℕ) → NoNull s → NoNull t → NoNull (s ++ t)
NoNull-append [] t h k = k
NoNull-append (b ∷ s) t h k = (h.0, NoNull-append s t h.1 k)

NoNull-take : (n : ℕ) (s : List ℕ) → NoNull s → NoNull (take n s)
NoNull-take zero s h = tt
NoNull-take (suc n) [] h = tt
NoNull-take (suc n) (b ∷ s) h = (h.0, NoNull-take n s h.1)

NoNull-drop : (n : ℕ) (s : List ℕ) → NoNull s → NoNull (drop n s)
NoNull-drop zero s h = h
NoNull-drop (suc n) [] h = tt
NoNull-drop (suc n) (b ∷ s) h = NoNull-drop n s h.1

take-drop : (n : ℕ) (s : List ℕ) → take n s ++ drop n s ≡ s
take-drop zero s = refl
take-drop (suc n) [] = refl
take-drop (suc n) (b ∷ s) = ap (λ l. b ∷ l) (take-drop n s)

take-all : (n : ℕ) (s : List ℕ) → length s ≤ n → take n s ≡ s
take-all zero [] h = refl
take-all zero (b ∷ s) h = absurd (omega (arith, h))
take-all (suc n) [] h = refl
take-all (suc n) (b ∷ s) h = ap (λ l. b ∷ l) (take-all n s (omega arith))

length-drop : (n : ℕ) (s : List ℕ) → length (drop n s) ≡ length s - n
length-drop zero s = omega arith
length-drop (suc n) [] = omega arith
length-drop (suc n) (b ∷ s) = length-drop n s ∙ omega arith

drop-all : (n : ℕ) (s : List ℕ) → length s ≤ n → drop n s ≡ []
drop-all zero [] h = refl
drop-all zero (b ∷ s) h = absurd (omega (arith, h))
drop-all (suc n) [] h = refl
drop-all (suc n) (b ∷ s) h = drop-all n s (omega arith)

requested : (p q n : ℕ) → q + 1 ≡ p + n → pos q +ℤ pos 1 -ℤ pos p ≡ pos n
unfolding ◌+ℤ◌ ◌-ℤ◌
requested p q n h = ground arith

copied-front : (k : ℕ) (s : List ℕ) → k ≤ length s → copied (pos 1) (pos k) s ≡ take k s
unfolding copied
copied-front zero s h = rw (requested 1 0 0 (omega arith)) (ground arith)
copied-front (suc k) s h = rw (requested 1 (suc k) (suc k) (omega arith)) (ground arith)

copied-back :
    (k : ℕ) (s : List ℕ) → k ≤ length s → copied (pos (k + 1)) (pos (length s)) s ≡ drop k s
unfolding copied
copied-back k s h =
    let rest = length s - k in
    let all : take rest (drop k s) ≡ drop k s =
      take-all rest (drop k s) (omega (arith, length-drop k s)) in
    let low : k + 1 - 1 ≡ k = omega arith in
    let nothing : length s ≤ k → drop k s ≡ [] = drop-all k s in
    rw (requested (k + 1) (length s) rest (omega arith)) (rw low (ground (arith, all, nothing)))

-- The concatenation of two strings is a string whose contents are theirs, one behind the other.
pub prim_string_cat-c_string :
    (src1 src2 s t : List ℕ)
    → c_string src1 ≡ done s
    → c_string src2 ≡ done t
    → (r : List ℕ) × (prim_string_cat src1 src2 ≡ done r)
      × (c_string r ≡ done (s ++ t))
      × (length r ≡ length s + length t + 1)
unfolding prim_string_cat
prim_string_cat-c_string src1 src2 s t e f = (
  (s ++ t) ++ 0 ∷ [],
  rw (e, f) (simp append_assoc),
  c_string-terminated (s ++ t)
      (NoNull-append s t (c_string-NoNull src1 s e) (c_string-NoNull src2 t f)),
  omega (arith, length-append (s ++ t) (0 ∷ []), length-append s t),
)

small : (n : ℕ) → n < 2 ^ 31 → to_int (int_value (from_int (pos n))) ≡ pos n
unfolding to_int int_value from_int unsigned
small n h = ground arith

copy-done :
    (src s : List ℕ) (from to : Word) (p q : ℕ)
    → c_string src ≡ done s
    → to_int (int_value from) ≡ pos p
    → to_int (int_value to) ≡ pos q
    → prim_copy_from_to src from to ≡ done (copied (pos p) (pos q) s ++ 0 ∷ [])
unfolding prim_copy_from_to
copy-done src s from to p q e f g = rw (e, f, g) refl

-- If `src` is a string of `n` bytes before the null, less than 2 ^ 31 - 1, and `k` is at most `n`, then the
-- copies from 1 to `k` and from `k` + 1 to `n`, behind one another, are a string with the contents of `src`.
pub prim_copy_from_to-prim_string_cat :
    (src s : List ℕ) (k : ℕ)
    → c_string src ≡ done s
    → length s < 2 ^ 31 - 1
    → k ≤ length s
    → (a : List ℕ) × (b : List ℕ) × (r : List ℕ) × (prim_copy_from_to src
          (from_int (pos 1))
          (from_int (pos k))
        ≡ done a)
      × (prim_copy_from_to src (from_int (pos (k + 1))) (from_int (pos (length s))) ≡ done b)
      × (prim_string_cat a b ≡ done r)
      × (c_string r ≡ done s)
prim_copy_from_to-prim_string_cat src s k e short h =
    let clean = c_string-NoNull src s e in
    let front = take k s in
    let back = drop k s in
    let (r, cat, contents, size) =
      prim_string_cat-c_string (front ++ 0 ∷ []) (back ++ 0 ∷ []) front back
        (c_string-terminated front (NoNull-take k s clean))
        (c_string-terminated back (NoNull-drop k s clean)) in
    (
      front ++ 0 ∷ [],
      back ++ 0 ∷ [],
      r,
      copy-done src s (from_int (pos 1)) (from_int (pos k)) 1 k e (small 1 (omega arith))
            (small k (omega arith))
          ∙ ap (λ l. done (l ++ 0 ∷ [])) (copied-front k s h),
      copy-done src s (from_int (pos (k + 1))) (from_int (pos (length s))) (k + 1) (length s) e
            (small (k + 1) (omega arith)) (small (length s) (omega arith))
          ∙ ap (λ l. done (l ++ 0 ∷ [])) (copied-back k s h),
      cat,
      contents ∙ ap done (take-drop k s),
    )
