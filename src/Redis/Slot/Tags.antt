-- ===== src/Redis/Slot/Tags.antt =====
-- What hashtag picks out of a key, and the range of a slot.
use samaritan.Prelude.{
  ℕ, suc, ◌+◌, ◌-◌, ◌<◌, ◌≡◌, ◌≢◌, refl, ap, ◌∙◌, [], ◌∷◌, ◌++◌, Bytes, All, length, length-append,
  drop, take-length-append, arith,
}
use samaritan.Redis.Slot.Hashtag.{hashtag, Without, index_of-append, index_of_absent}

-- Behind the opening brace.
drop_past : (c : ℕ) (p q : Bytes) → drop (length p + 1) (p ++ c ∷ q) ≡ q
drop_past c [] q = refl
drop_past c (b ∷ p) q =
    let e : suc (length p) + 1 ≡ suc (length p + 1) = omega arith in
    ap (λ k. drop k (b ∷ (p ++ c ∷ q))) e ∙ drop_past c p q

-- The lengths of a tagged key and of its parts.
length_tagged :
    (pre tag rest : Bytes) (c : ℕ)
    → length (pre ++ c ∷ (tag ++ rest)) ≡ length pre + 1 + length tag + length rest
length_tagged pre tag rest c =
    omega (arith, length-append pre (c ∷ (tag ++ rest)), length-append tag rest)

length-not_zero : (b : Bytes) → b ≢ [] → 0 < length b
length-not_zero [] h = absurd (h refl)
length-not_zero (x ∷ b) h = omega arith

pub hashtag-tagged :
    (pre tag post : Bytes)
    → All (Without b'{') pre
    → All (Without b'}') tag
    → tag ≢ []
    → hashtag (pre ++ b'{' ∷ (tag ++ b'}' ∷ post)) ≡ tag
unfolding hashtag
hashtag-tagged pre tag post p t ne =
    let i = index_of-append b'{' pre (tag ++ b'}' ∷ post) p in
    let d = drop_past b'{' pre (tag ++ b'}' ∷ post) in
    let j = index_of-append b'}' tag post t in
    let n = length_tagged pre tag (b'}' ∷ post) b'{' in
    let w = take-length-append tag (b'}' ∷ post) in
    let z = length-not_zero tag ne in
    let cut : length pre + 1 + length tag - (length pre + 1) ≡ length tag = omega arith in
    rw (i, d, j, n) (ground (arith, w, z, cut))

hashtag_plain : (key : Bytes) → All (Without b'{') key → hashtag key ≡ key
unfolding hashtag
hashtag_plain key h = ground (arith, index_of_absent b'{' key h)

hashtag_open :
    (pre tag : Bytes)
    → All (Without b'{') pre
    → All (Without b'}') tag
    → hashtag (pre ++ b'{' ∷ tag) ≡ pre ++ b'{' ∷ tag
unfolding hashtag
hashtag_open pre tag p t =
    let i = index_of-append b'{' pre tag p in
    let d = drop_past b'{' pre tag in
    let j = index_of_absent b'}' tag t in
    let n = length-append pre (b'{' ∷ tag) in rw (i, d, j, n) (ground arith)

hashtag_empty :
    (pre post : Bytes)
    → All (Without b'{') pre
    → hashtag (pre ++ b'{' ∷ b'}' ∷ post) ≡ pre ++ b'{' ∷ b'}' ∷ post
unfolding hashtag
hashtag_empty pre post p =
    let i = index_of-append b'{' pre (b'}' ∷ post) p in
    let d = drop_past b'{' pre (b'}' ∷ post) in
    let j = index_of-append b'}' [] post tt in
    let n = length-append pre (b'{' ∷ b'}' ∷ post) in rw (i, d, j, n) (ground arith)

-- A key with a nonempty part between its first `{` and the first `}` behind it is hashed by that
-- part. A key without `{`, a key without `}` behind its first `{`, and a key with `{}` at its first
-- `{` are hashed whole.
pub hashtag_by_shape :
    (pre tag post : Bytes)
    → All (Without b'{') pre
    → All (Without b'}') tag
    → (tag ≢ [] → hashtag (pre ++ b'{' ∷ (tag ++ b'}' ∷ post)) ≡ tag)
      × (hashtag pre ≡ pre)
      × (hashtag (pre ++ b'{' ∷ tag) ≡ pre ++ b'{' ∷ tag)
      × (hashtag (pre ++ b'{' ∷ b'}' ∷ post) ≡ pre ++ b'{' ∷ b'}' ∷ post)
hashtag_by_shape pre tag post p t = (
  hashtag-tagged pre tag post p t,
  hashtag_plain pre p,
  hashtag_open pre tag p t,
  hashtag_empty pre post p,
)
