-- ===== src/State/Triggers/Framing.antt =====
-- The bytes that a trigger's identifier hashes tell the trigger apart.
use onchain_strategy_mcp.Prelude.{
  ℕ, false, Option, some, [], ◌∷◌, ◌++◌, ◌≡◌, refl, ap, arith, any, ◌==◌, nat_eq, if◌then◌else◌,
  unwrap_or,
}
use onchain_strategy_mcp.Prelude.Text.{Text, codes, text_eq}
use onchain_strategy_mcp.State.Triggers.{TriggerKind, as_wire, trigger_frame}

-- A text without the separator. JSON text has it escaped, and an identifier is hexadecimal.
abbrev pub IsUnseparated : Text → Type 0
IsUnseparated s = any (λ b. b == 31) s ≡ false

head_tail : {x y : ℕ} {xs ys : Text} → x ∷ xs ≡ y ∷ ys → (x ≡ y) × (xs ≡ ys)
head_tail e = (cc e, cc e)

-- Up to the first separator two equal texts are the same.
split_at_separator :
    (xs ys : Text) {a b : Text}
    → IsUnseparated xs
    → IsUnseparated ys
    → xs ++ 31 ∷ a ≡ ys ++ 31 ∷ b
    → (xs ≡ ys) × (a ≡ b)
split_at_separator [] [] h k e = (refl, (head_tail e).1)
split_at_separator [] (y ∷ ys) h k e = let (same, _) = head_tail e in ground (arith, k, same)
split_at_separator (x ∷ xs) [] h k e = let (same, _) = head_tail e in ground (arith, h, same)
split_at_separator (x ∷ xs) (y ∷ ys) h k e =
    let (same, rest) = head_tail e in
    let (parts, after) = split_at_separator xs ys (ground (arith, h)) (ground (arith, k)) rest in
    (cc (same, parts), after)

kind_of : Text → Option TriggerKind
kind_of t =
    if t == codes "manual"
    then some TriggerKind.manual
    else if t == codes "interval"
    then some TriggerKind.interval
    else if t == codes "block"
    then some TriggerKind.block
    else if t == codes "log"
    then some TriggerKind.log
    else if t == codes "mempool"
    then some TriggerKind.mempool
    else some TriggerKind.webhook

kind_of-as_wire : (k : TriggerKind) → kind_of (codes (as_wire k)) ≡ some k
unfolding kind_of
kind_of-as_wire TriggerKind.manual = refl
kind_of-as_wire TriggerKind.interval = refl
kind_of-as_wire TriggerKind.block = refl
kind_of-as_wire TriggerKind.log = refl
kind_of-as_wire TriggerKind.mempool = refl
kind_of-as_wire TriggerKind.webhook = refl

as_wire-IsUnseparated : (k : TriggerKind) → IsUnseparated (codes (as_wire k))
as_wire-IsUnseparated TriggerKind.manual = refl
as_wire-IsUnseparated TriggerKind.interval = refl
as_wire-IsUnseparated TriggerKind.block = refl
as_wire-IsUnseparated TriggerKind.log = refl
as_wire-IsUnseparated TriggerKind.mempool = refl
as_wire-IsUnseparated TriggerKind.webhook = refl

as_wire-injective : (k l : TriggerKind) → codes (as_wire k) ≡ codes (as_wire l) → k ≡ l
as_wire-injective k l e = cc (kind_of-as_wire k, kind_of-as_wire l, ap kind_of e)

-- When the identifiers of the strategies and the configurations have no separator byte, two triggers
-- with the same hashed bytes have the same strategy, kind and configuration, and the same predicate
-- up to the difference between an absent and an empty one.
pub trigger_frame-injective :
    (s t : Text) (k l : TriggerKind) (c d : Text) (p q : Option Text)
    → IsUnseparated s
    → IsUnseparated t
    → IsUnseparated c
    → IsUnseparated d
    → trigger_frame s (codes (as_wire k)) c p ≡ trigger_frame t (codes (as_wire l)) d q
    → (s ≡ t) × (k ≡ l) × (c ≡ d) × (unwrap_or p [] ≡ unwrap_or q [])
unfolding trigger_frame
trigger_frame-injective s t k l c d p q plain_s plain_t plain_c plain_d e =
    let (same_s, e1) = split_at_separator s t plain_s plain_t e in
    let (same_k, e2) =
      split_at_separator (codes (as_wire k)) (codes (as_wire l)) (as_wire-IsUnseparated k)
        (as_wire-IsUnseparated l) e1 in
    let (same_c, same_p) = split_at_separator c d plain_c plain_d e2 in
    (same_s, as_wire-injective k l same_k, same_c, same_p)
