-- ===== src/Active/Within.antt =====
-- The end and the result of the search for the ranges that change.
use openipc_tftp.Common.{
  ℕ, zero, suc, ◌≤◌, ◌<◌, ◌≡◌, refl, sym, ◌∙◌, subst, true, false, List, [], ◌∷◌, arith, inl, inr,
  Bool-cases, flatten, leb,
}
use openipc_tftp.Ranges.{Range}
use openipc_tftp.Ranges.Covers.{covers}
use openipc_tftp.Ranges.Coalesced.{apart, coalesce_ranges_lem}
use openipc_tftp.Tasks.{Task, from_result}
use openipc_tftp.Tasks.Always.{Always, Always-bind, Always-from_result, weaker}
use openipc_tftp.Active.{Search, batched, changed_in, split_all, narrowed, find_active}
use openipc_tftp.Active.Rounds.{
  Within, Below, Keeps, batched-Ensures, changed_in-Keeps, split_all-Keeps,
}

-- Ranges that lie apart, in ascending order, inside of those that were searched.
pub record IsFound (rs out : List Range) : Type 0 where
  pub within : Within out rs
  pub lie_apart : apart out ≡ true

module _ (search : Search) (two : 2 ≤ search.split_parts) where
  narrowed-Always :
      (n : ℕ) (next : List Range → Task (List Range)) (rs changed : List Range)
      → Keeps (suc n) rs changed
      → ((cur : List Range) → Below n cur → Always (IsFound cur) (next cur))
      → Always (IsFound rs) (narrowed search next changed)
  unfolding narrowed covers apart
  narrowed-Always n next rs [] k step = record { within = λ x e. absurd (cc e); lie_apart = refl }
  narrowed-Always n next rs (r ∷ changed) k step = elim (Bool-cases (leb r.size search.min_chunk)) [
    | inl small ↦ rw small (record {
      within = λ x e. k.within x (sym ((coalesce_ranges_lem (r ∷ changed)).0 x) ∙ e);
      lie_apart = (coalesce_ranges_lem (r ∷ changed)).1;
    })
    | inr large ↦ rw large (
        Always-bind (Keeps n (r ∷ changed)) (IsFound rs)
          (from_result (split_all (r ∷ changed) search.split_parts)) next
          (Always-from_result (Keeps n (r ∷ changed)) _ (
            split_all-Keeps (r ∷ changed) search.split_parts n two (positive large k.below)
              k.below))
          (λ cur i.
            weaker (next cur)
              (λ out f. record {
                within = λ x e. k.within x (i.within x (f.within x e));
                lie_apart = f.lie_apart;
              })
              (step cur i.below)))
  ]
    where
      positive : leb r.size search.min_chunk ≡ false → Below (suc n) (r ∷ changed) → 0 < n
      positive e (b, bs) = ground arith

  -- With at least 2 parts to a split, and with more rounds of fuel than the size of every range,
  -- find_active never runs out of fuel, whatever CRCs its client reports; and the ranges that it
  -- returns, if no call raises, lie apart in ascending order and cover addresses of the given ranges
  -- only.
  pub find_active-IsFound :
      (fuel : ℕ) (rs : List Range)
      → Below fuel rs
      → Always (IsFound rs) (find_active search fuel rs)
  unfolding find_active apart
  find_active-IsFound fuel [] b = record { within = λ x e. e; lie_apart = refl }
  find_active-IsFound zero (r ∷ rs) (b, bs) = absurd (omega arith)
  find_active-IsFound (suc fuel) (r ∷ rs) b =
      Always-bind (λ (gs : List (List Range)). flatten gs ≡ r ∷ rs) (IsFound (r ∷ rs))
        (from_result (batched (r ∷ rs) search.max_ranges)) _
        (Always-from_result (λ (gs : List (List Range)). flatten gs ≡ r ∷ rs)
          (batched (r ∷ rs) search.max_ranges) (batched-Ensures (r ∷ rs) search.max_ranges))
        λ gs e.
          Always-bind (Keeps (suc fuel) (flatten gs)) (IsFound (r ∷ rs))
            (changed_in search.rambase gs) _
            (changed_in-Keeps search.rambase (suc fuel) gs (rw e b))
            λ changed k.
              narrowed-Always fuel (λ cur. find_active search fuel cur) (r ∷ rs) changed
                (subst (λ all. Keeps (suc fuel) all changed) e k)
                (λ cur c. find_active-IsFound fuel cur c)
