-- ===== src/State/Strategies/Framing.antt =====
-- The bytes that a strategy's identifier hashes tell its content apart.
use onchain_strategy_mcp.Prelude.{
  ℕ, ◌^◌, ◌<◌, String, Option, none, some, [], ◌∷◌, ◌++◌, ◌≡◌, refl, ap, arith, length,
}
use onchain_strategy_mcp.Prelude.Text.{Text, codes}
use onchain_strategy_mcp.State.Strategies.{
  be_bytes, write_section, or_empty, bundle_sections, actions_section, frame_tag, lineage_frame,
}

-- A length that a `u64` holds.
abbrev pub Fits : Text → Type 0
Fits s = length s < 2 ^ 64

cons-injective : {x y : ℕ} {xs ys : Text} → x ∷ xs ≡ y ∷ ys → (x ≡ y) × (xs ≡ ys)
cons-injective e = (cc e, cc e)

append_cancel : (xs : Text) {a b : Text} → xs ++ a ≡ xs ++ b → a ≡ b
append_cancel [] e = e
append_cancel (x ∷ xs) e = append_cancel xs (cons-injective e).1

-- Two texts of the same length that begin the same text are the same.
append_split :
    (xs ys : Text) {a b : Text} → length xs ≡ length ys → xs ++ a ≡ ys ++ b → (xs ≡ ys) × (a ≡ b)
append_split [] [] h e = (refl, e)
append_split [] (y ∷ ys) h e = ground (arith, h)
append_split (x ∷ xs) [] h e = ground (arith, h)
append_split (x ∷ xs) (y ∷ ys) h e =
    let (first, rest) = cons-injective e in
    let (same, after) = append_split xs ys (omega (arith, h)) rest in (cc (first, same), after)

be_bytes-injective :
    (m n : ℕ) {a b : Text}
    → m < 2 ^ 64
    → n < 2 ^ 64
    → be_bytes m a ≡ be_bytes n b
    → (m ≡ n) × (a ≡ b)
be_bytes-injective m n small_m small_n e =
    let (e0, r0) = cons-injective e in
    let (e1, r1) = cons-injective r0 in
    let (e2, r2) = cons-injective r1 in
    let (e3, r3) = cons-injective r2 in
    let (e4, r4) = cons-injective r3 in
    let (e5, r5) = cons-injective r4 in
    let (e6, r6) = cons-injective r5 in
    let (e7, r7) = cons-injective r6 in
    (omega (arith, small_m, small_n, e0, e1, e2, e3, e4, e5, e6, e7), r7)

write_section-injective :
    (tag : String) (s t : Text) {a b : Text}
    → Fits s
    → Fits t
    → write_section tag s a ≡ write_section tag t b
    → (s ≡ t) × (a ≡ b)
unfolding write_section
write_section-injective tag s t {a} {b} fits_s fits_t e =
    let e1 = (cons-injective (append_cancel (codes tag) e)).1 in
    let (lengths, e2) = be_bytes-injective (length s) (length t) fits_s fits_t e1 in
    let (same, after) = append_split s t lengths (cons-injective e2).1 in
    (same, (cons-injective after).1)

-- The parts of what is hashed, each no longer than its length field can say.
abbrev pub AllFit : Text → Text → Option Text → Option Text → Option Text → Type 0
AllFit lineage source records view actions =
    Fits lineage
    × Fits source
    × Fits (or_empty records)
    × Fits (or_empty view)
    × Fits (or_empty actions)

sections-injective :
    (s t : Text) (r q v w : Option Text) {a b : Text}
    → Fits s
    → Fits t
    → Fits (or_empty r)
    → Fits (or_empty q)
    → Fits (or_empty v)
    → Fits (or_empty w)
    → bundle_sections s r v a ≡ bundle_sections t q w b
    → (s ≡ t) × (or_empty r ≡ or_empty q) × (or_empty v ≡ or_empty w) × (a ≡ b)
sections-injective s t r q v w fs ft fr fq fv fw e =
    let (source, e1) = write_section-injective "execute" s t fs ft e in
    let (records, e2) = write_section-injective "records" (or_empty r) (or_empty q) fr fq e1 in
    let (view, e3) = write_section-injective "view" (or_empty v) (or_empty w) fv fw e2 in
    (source, records, view, e3)

actions_section-injective :
    (a b : Option Text)
    → Fits (or_empty a)
    → Fits (or_empty b)
    → frame_tag a ≡ frame_tag b
    → actions_section a ≡ actions_section b
    → a ≡ b
actions_section-injective none none fa fb tags e = refl
actions_section-injective none (some y) fa fb tags e = absurd (tags_differ tags)
  where
    tags_differ : frame_tag none ≡ frame_tag (some y) → ⊥
    tags_differ q = ground (arith, (cons-injective (append_cancel (codes "osmcp-bundle-v1.") q)).0)
actions_section-injective (some x) none fa fb tags e = absurd (tags_differ tags)
  where
    tags_differ : frame_tag (some x) ≡ frame_tag none → ⊥
    tags_differ q = ground (arith, (cons-injective (append_cancel (codes "osmcp-bundle-v1.") q)).0)
actions_section-injective (some x) (some y) fa fb tags e =
    ap some (write_section-injective "actions" x y fa fb e).0

-- The two frame tags differ before either ends, so a frame shows which one it has.
frame_tag-cancel :
    (a b : Option Text) {x y : Text}
    → frame_tag a ++ x ≡ frame_tag b ++ y
    → (frame_tag a ≡ frame_tag b) × (x ≡ y)
frame_tag-cancel none none e = (refl, append_cancel (codes "osmcp-bundle-v1.8\n") e)
frame_tag-cancel (some p) (some q) e = (refl, append_cancel (codes "osmcp-bundle-v1.10\n") e)
frame_tag-cancel none (some q) e =
    ground (arith, (cons-injective (append_cancel (codes "osmcp-bundle-v1.") e)).0)
frame_tag-cancel (some p) none e =
    ground (arith, (cons-injective (append_cancel (codes "osmcp-bundle-v1.") e)).0)

-- When no part is longer than its length field can say, two strategies with the same hashed bytes have the same lineage, source and actions, and the same
-- records schema and view, up to the difference between an absent and an empty one.
pub lineage_frame-injective :
    (l m s t : Text) (r q v w a b : Option Text)
    → AllFit l s r v a
    → AllFit m t q w b
    → lineage_frame l s r v a ≡ lineage_frame m t q w b
    → (l ≡ m) × (s ≡ t) × (or_empty r ≡ or_empty q) × (or_empty v ≡ or_empty w) × (a ≡ b)
unfolding lineage_frame
lineage_frame-injective l m s t r q v w a b (fl, fs, fr, fv, fa) (fm, ft, fq, fw, fb) e =
    let (tags, e1) = frame_tag-cancel a b e in
    let (lineage, e2) = write_section-injective "lineage" l m fl fm e1 in
    let (source, records, view, e3) = sections-injective s t r q v w fs ft fr fq fv fw e2 in
    (lineage, source, records, view, actions_section-injective a b fa fb tags e3)
