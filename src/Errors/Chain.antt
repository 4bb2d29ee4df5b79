-- ===== src/Errors/Chain.antt =====
-- The end of the walk along the causes.
use git_agent.Base.{
  Text, codes, Bool, true, false, Option, none, some, List, [], ◌∷◌, ◌>>=◌, ◌≡◌, refl, ap, ℕ, zero,
  suc, ◌+◌, ◌-◌, ◌≤◌, ◌<◌, ◌||◌, not, arith, if◌then◌else◌, ltb, length, length-append, length-take,
  take, contains, join, nat_eq, ltb→lt,
}
use git_agent.Errors.{Heap, max_chain, next_exc, exc_part, chain_from, cut_description, describe}

-- The walk has ended, with no more parts than allowed.
abbrev Ended : Option (List Text) → Type 0
Ended o = (parts : List Text) × (o ≡ some parts) × (length parts ≤ max_chain)

either-Ended :
    (old room : Bool) (parts : List Text) (rest : Option (List Text))
    → length parts ≤ max_chain
    → (room ≡ true → Ended rest)
    → Ended (if old || not room then some parts else rest)
either-Ended true room parts rest h k = (parts, refl, h)
either-Ended false true parts rest h k = k refl
either-Ended false false parts rest h k = (parts, refl, h)

chain_from-Ended :
    (fuel : ℕ) (heap : Heap) (cur : Option ℕ) (seen : List ℕ) (parts : List Text)
    → length parts ≤ max_chain
    → max_chain < length parts + fuel
    → Ended (chain_from fuel heap cur seen parts)
unfolding chain_from
chain_from-Ended zero heap cur seen parts h k = absurd (omega arith)
chain_from-Ended (suc fuel) heap none seen parts h k = (parts, refl, h)
chain_from-Ended (suc fuel) heap (some cur) seen parts h k =
    either-Ended (contains cur seen) (ltb (length parts) max_chain) parts _ h (λ e.
      let more = ltb→lt (length parts) max_chain e in
      let one = length-append parts (exc_part (heap cur) ∷ []) in
      chain_from-Ended fuel heap (next_exc (heap cur)) (cur ∷ seen) _ (omega (arith, more, one))
        (omega (arith, k, one)))

length-cut_description :
    (limit : ℕ) (out : Text) → 1 ≤ limit → length (cut_description limit out) ≤ limit
unfolding cut_description codes
length-cut_description limit out h =
    ground (arith, length-append (take (limit - 1) out) (codes "…"), length-take (limit - 1) out)

-- Five rounds are enough for every exception, also when its causes go round in a circle, and the
-- description is within the limit, if that is not zero.
pub describe_ends :
    (heap : Heap) (exc limit : ℕ)
    → 1 ≤ limit
    → (out : Text) × (describe (suc max_chain) heap exc limit ≡ some out) × (length out ≤ limit)
unfolding describe
describe_ends heap exc limit h =
    let (parts, e, few) =
      chain_from-Ended (suc max_chain) heap (some exc) [] [] (omega arith) (omega arith) in
    (
      cut_description limit (join (codes " ← caused by: ") parts),
      ap (λ o. o >>= λ ps. some (cut_description limit (join (codes " ← caused by: ") ps))) e,
      length-cut_description limit _ h,
    )
