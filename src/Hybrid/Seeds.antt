-- ===== src/Hybrid/Seeds.antt =====
-- hybrid.py, `hybrid_query`: the seed set, its cap, and what becomes of each candidate.
use graphrag_aws_template.Prelude.{
  ℕ, ◌-◌, ◌≤◌, ◌≡◌, refl, ap, ◌↔◌, ltb, String, Bool, true, false, not, ◌&&◌, ◌||◌, List, [], ◌∷◌,
  ◌++◌, map, arith, length, take, keep, contains, any, Distinct, ◌==◌, string_eq, length-append,
  length-take, length-take-le, take_all, if◌then◌else◌, Option, Bool-cases, inl, inr, ltb→lt,
  ltb→le,
}
use graphrag_aws_template.Visibility.{Clearance}
use graphrag_aws_template.Store.{GraphStore}
use graphrag_aws_template.Hybrid.{
  Seed, seed_id, question_seed, Candidate, fate, Fate, unconfirmed, above_clearance, confirmed,
  is_unconfirmed, is_above, is_confirmed, Linked, link_round, link_seeds, cap_seeds,
}

-- nothing is cut off exactly if the list is short enough
uncut {ℓ} : {A : Type ℓ} (n : ℕ) (xs : List A) → (ltb n (length xs) ≡ false) ↔ (take n xs ≡ xs)
uncut n xs = (
  λ h. take_all n xs (ltb→le n (length xs) h),
  λ h.
      let same = ap length h in
      let le = length-take-le n xs in ground (arith, same, le, ltb→lt n (length xs)),
)

-- The kept seeds are at most `seed_cap`, and exactly so many if any seed was cut off; the flag of a
-- source is raised exactly if one of its seeds was; and the question's seeds come first: they are cut
-- off only if they alone are more than the cap.
pub cap_seeds-bounds :
    (seed_cap : ℕ) (vector_seeds question_seeds : List Seed)
    → let c = cap_seeds seed_cap vector_seeds question_seeds in
      (length (c.kept_vector ++ c.kept_question) ≤ seed_cap)
      × (c.vector_truncated || c.question_truncated ≡ true
          → length (c.kept_vector ++ c.kept_question) ≡ seed_cap)
      × ((c.vector_truncated ≡ false) ↔ (c.kept_vector ≡ vector_seeds))
      × ((c.question_truncated ≡ false) ↔ (c.kept_question ≡ question_seeds))
      × (length question_seeds ≤ seed_cap → c.kept_question ≡ question_seeds)
unfolding cap_seeds
cap_seeds-bounds seed_cap vs qs =
    let budget = seed_cap - length (take seed_cap qs) in
    let total = length-append (take budget vs) (take seed_cap qs) in
    let kept_v = length-take budget vs in
    let kept_q = length-take seed_cap qs in
    (
      omega (arith, total, kept_v, kept_q),
      λ h. elim (Bool-cases (ltb seed_cap (length qs))) [
        | inl more ↦ omega (arith, total, kept_v, kept_q, ltb→lt seed_cap (length qs) more)
        | inr fits ↦ omega (arith, total, kept_v, kept_q, ltb→lt budget (length vs) (ground arith))
      ],
      uncut budget vs,
      uncut seed_cap qs,
      λ h. take_all seed_cap qs h,
    )

module _ (S : GraphStore) (s : S.State) (clearance : Option Clearance) where
  abbrev has_fate : (Fate → Bool) → Candidate → Bool
  has_fate p c = p (fate S s clearance c)

  -- the parts of what a round does
  link_round_lem :
      (f : Fate) (old : Bool) (c : Candidate) (rest : Linked)
      → ((link_round f old c rest).dropped
          ≡ (if is_unconfirmed f then c ∷ rest.dropped else rest.dropped))
        × ((link_round f old c rest).filtered
            ≡ (if is_above f then c ∷ rest.filtered else rest.filtered))
        × (map seed_id (link_round f old c rest).question_seeds ≡ (
            if is_confirmed f && not old
            then c.entity_id ∷ map seed_id rest.question_seeds
            else map seed_id rest.question_seeds))
  unfolding link_round question_seed
  link_round_lem unconfirmed old c rest = (refl, refl, refl)
  link_round_lem above_clearance old c rest = (refl, refl, refl)
  link_round_lem confirmed true c rest = (refl, refl, refl)
  link_round_lem confirmed false c rest = (refl, refl, refl)

  -- Of the candidates, those without a node are dropped, those whose node is above the clearance are
  -- filtered, both in their order; and the ids of the other ones, without those that are seeds
  -- already, become the question's seeds, each once.
  pub link_seeds_lem :
      (cs : List Candidate) (seen : List String)
      → let links = link_seeds S s clearance seen cs in
        let ids = map seed_id links.question_seeds in
        (links.dropped ≡ keep (has_fate is_unconfirmed) cs)
        × (links.filtered ≡ keep (has_fate is_above) cs)
        × ((j : String)
            → contains ids j ≡ (
                not (contains seen j) && any (λ c. c.entity_id == j && has_fate is_confirmed c) cs))
        × Distinct ids
  unfolding link_seeds keep any contains
  link_seeds_lem [] seen = (refl, refl, λ j. ground arith, tt)
  link_seeds_lem (c ∷ cs) seen =
      let f = fate S s clearance c in
      let old = contains seen c.entity_id in
      let next = if is_confirmed f then if old then seen else c.entity_id ∷ seen else seen in
      let round = link_round_lem f old c (link_seeds S s clearance next cs) in
      let rest = link_seeds_lem cs next in
      (
        ground (arith, round.0, rest.0),
        ground (arith, round.1, rest.1),
        λ j. ground (arith, round.2, rest.2 j, string_eq.beq_iff c.entity_id j),
        elim (Bool-cases (is_confirmed f && not old)) [
          | inl fresh ↦ ground (
            arith,
            round.2,
            rest.3,
            rest.2 c.entity_id,
            string_eq.beq_iff c.entity_id c.entity_id,
          )
          | inr stale ↦ ground (arith, round.2, rest.3)
        ],
      )
