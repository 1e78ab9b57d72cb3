-- ===== src/Password/Similar.antt =====
-- The longest common substring in selfservice/strategy/password/validator.go.
--
-- A string is the list of its characters with their lengths in UTF-8, since Go ranges over byte
-- offsets.
use kratos.Base.{nat_eq, if◌then◌else◌, ◌==◌, ◌∷◌, ◌||◌, ◌*◌, ◌-◌, ◌+◌, ltb, [], List, String, ℕ}
use Prim.Native.String.{len}
use Prim.Native.Char.{code, len_utf8}

-- A character and its length.
abbrev pub runes : String → List (ℕ × ℕ)
runes String.[] = []
runes (String.◌∷◌ c s) = (code c, len_utf8 c) ∷ runes s

-- `lengths` and `greatestLength`; an entry of the array is a number of its index.
abbrev pub Cells : Type 0
Cells = (ℕ → ℕ) × ℕ

abbrev pub set : ℕ → ℕ → (ℕ → ℕ) → ℕ → ℕ
set k v lengths n = if n == k then v else lengths n

-- The body of the inner loop where the characters are equal, at the offsets `i` and `j`.
abbrev pub grown : (lb i j : ℕ) → Cells → Cells
grown lb i j (lengths, greatest) =
    let curr = if i == 0 || j == 0 then 1 else lengths ((i - 1) * lb + j - 1) + 1 in
    (set (i * lb + j) curr lengths, if ltb greatest curr then curr else greatest)

abbrev pub inner : (lb i x j : ℕ) → List (ℕ × ℕ) → Cells → Cells
inner lb i x j [] cells = cells
inner lb i x j ((y, w) ∷ ys) cells =
    inner lb i x (j + w) ys (if x == y then grown lb i j cells else cells)

abbrev pub outer : (lb i : ℕ) → List (ℕ × ℕ) → List (ℕ × ℕ) → Cells → Cells
outer lb i [] ys cells = cells
outer lb i ((x, w) ∷ xs) ys cells = outer lb (i + w) xs ys (inner lb i x 0 ys cells)

unfoldable pub lcs_length : String → String → ℕ
lcs_length a b = (outer (len b) 0 (runes a) (runes b) (λ n. 0, 0)).1
