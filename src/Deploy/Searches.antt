-- ===== src/Deploy/Searches.antt =====
-- The scripts of the search for changing ranges.
use openipc_tftp.Common.{
  ℕ, zero, suc, refl, Bool, true, false, List, [], ◌∷◌, All, inl, inr, Bool-cases, length, leb,
}
use openipc_tftp.Common.Text.{Text, starts_with}
use openipc_tftp.Ranges.{Range}
use openipc_tftp.Tasks.{Task, from_result, exec, env_value}
use openipc_tftp.Active.{
  Search, commands_from, read_crcs, crc32, crc32_script, crc_of, keys_from, changed_in, narrowed,
  split_all, find_active, batched,
}
use openipc_tftp.Deploy.Quiet.{env_value-Guarded}
use openipc_tftp.Deploy.Guarded.{
  Stage, Guarded, both-Guarded, Anything, any-Guarded, IsQuiet, exec-Guarded,
}

commands_from-IsQuiet :
    (rambase : Text) (i : ℕ) (rs : List Range) → All IsQuiet (commands_from rambase i rs)
unfolding commands_from crc32_script starts_with
commands_from-IsQuiet rambase i [] = tt
commands_from-IsQuiet rambase i (r ∷ rs) =
    (refl, (refl, (refl, (refl, (refl, (refl, commands_from-IsQuiet rambase (suc i) rs))))))

read_crcs-Guarded :
    (s : Stage) (le : Bool) (keys : List Text) → Guarded Anything s (read_crcs le keys)
unfolding read_crcs
read_crcs-Guarded s le [] = tt
read_crcs-Guarded s le (key ∷ keys) =
    both-Guarded s (env_value key) _ (env_value-Guarded s key) λ s raw.
      both-Guarded s (from_result (crc_of le raw)) _ (any-Guarded s _)
        λ s crc. both-Guarded s (read_crcs le keys) _ (read_crcs-Guarded s le keys) λ s crcs. tt

pub crc32-Guarded :
    (s : Stage) (rambase : Text) (rs : List Range) (le : Bool)
    → Guarded Anything s (crc32 rambase rs le)
unfolding crc32
crc32-Guarded s rambase rs le =
    both-Guarded s (exec (commands_from rambase 0 rs) false (keys_from 0 (length rs))) _
      (exec-Guarded s (commands_from rambase 0 rs) false (keys_from 0 (length rs))
        (commands_from-IsQuiet rambase 0 rs))
      λ s u. read_crcs-Guarded s le (keys_from 0 (length rs))

changed_in-Guarded :
    (s : Stage) (rambase : Text) (groups : List (List Range))
    → Guarded Anything s (changed_in rambase groups)
unfolding changed_in
changed_in-Guarded s rambase [] = tt
changed_in-Guarded s rambase (g ∷ gs) =
    both-Guarded s (crc32 rambase g true) _ (crc32-Guarded s rambase g true) λ s xs.
      both-Guarded s (crc32 rambase g true) _ (crc32-Guarded s rambase g true) λ s ys.
        both-Guarded s (changed_in rambase gs) _ (changed_in-Guarded s rambase gs) λ s changed. tt

narrowed-Guarded :
    (s : Stage) (search : Search) (next : List Range → Task (List Range)) (rs : List Range)
    → ((s' : Stage) (cur : List Range) → Guarded Anything s' (next cur))
    → Guarded Anything s (narrowed search next rs)
unfolding narrowed
narrowed-Guarded s search next [] h = tt
narrowed-Guarded s search next (r ∷ rs) h = elim (Bool-cases (leb r.size search.min_chunk)) [
  | inl e ↦ rw e tt
  | inr e ↦ rw e (
      both-Guarded s (from_result (split_all (r ∷ rs) search.split_parts)) next (any-Guarded s _) h)
]

pub find_active-Guarded :
    (s : Stage) (search : Search) (fuel : ℕ) (rs : List Range)
    → Guarded Anything s (find_active search fuel rs)
unfolding find_active
find_active-Guarded s search fuel [] = tt
find_active-Guarded s search zero (r ∷ rs) = tt
find_active-Guarded s search (suc fuel) (r ∷ rs) =
    both-Guarded s (from_result (batched (r ∷ rs) search.max_ranges)) _ (any-Guarded s _)
      λ s groups.
        both-Guarded s (changed_in search.rambase groups) _
          (changed_in-Guarded s search.rambase groups)
          λ s changed.
            narrowed-Guarded s search (λ cur. find_active search fuel cur) changed
              (λ s cur. find_active-Guarded s search fuel cur)
