-- ===== src/Sessions/Store.antt =====
-- InMemorySessionStore against a map from normalised ids to sessions.
use openipc_tftp.Common.{
  ℕ, ◌≡◌, refl, [], Option, none, some, Result, ok, err, value_error, ◌>>=◌, arith, if◌then◌else◌,
  inl, inr, subst, sym, ◌∙◌, Bool-cases, ◌⊎◌, Option-cases, file_not_found,
}
use openipc_tftp.Common.Text.{Text, text_eq, text_eq_iff, lower}
use openipc_tftp.Common.Dict
use openipc_tftp.Common.Dict.{
  Dict, get-put, get-remove, get-put_self, get-empty, IsUnique, put-IsUnique, remove-IsUnique,
  dict_laws,
}
use openipc_tftp.Protocol.ClientId.{IsClientId, normalize_fixed, normalize-cases, refused}
use openipc_tftp.Sessions.{
  ClientSession, Sessions, found_or, new_session, get, create, or_create, get_or_create, replace,
  require, discard, save,
}

-- The calls that change the store; a change of a field of a session is a `save`.
pub data Op : Type 0 where
  create' get_or_create' replace' discard' : Text → Op

abbrev pub target : Op → Text
target (create' id) = id
target (get_or_create' id) = id
target (replace' id) = id
target (discard' id) = id

module _ {H : Type 0} where
  -- The store after a call.
  unfoldable pub run : ℕ → Sessions H → Op → Result (Sessions H)
  run now store (create' id) = do r ← create now store id; ok r.1
  run now store (get_or_create' id) = do r ← get_or_create now store id; ok r.1
  run now store (replace' id) = do r ← replace now store id; ok r.1
  run now store (discard' id) = discard store id

  -- The session that the id has after the call.
  abbrev pub left_by : ℕ → Op → Option (ClientSession H) → Option (ClientSession H)
  left_by now (create' id) old = some (new_session now (lower id))
  left_by now (get_or_create' id) none = some (new_session now (lower id))
  left_by now (get_or_create' id) (some s) = some s
  left_by now (replace' id) old = some (new_session now (lower id))
  left_by now (discard' id) old = none

  -- Each session stands under its own id, which is a client id, and each id stands once.
  pub record IsKeyed (store : Sessions H) : Type 0 where
    pub own :
        (key : Text) (s : ClientSession H)
        → Dict.get store key ≡ some s
        → (s.client_id ≡ key) × IsClientId key
    pub unique : IsUnique store

  pub IsKeyed-empty : IsKeyed []
  IsKeyed-empty = record { own = λ key s h. cc (get-empty {V = ClientSession H} key); unique = tt }

  pub put-IsKeyed :
      (store : Sessions H) (s : ClientSession H)
      → IsClientId s.client_id
      → IsKeyed store
      → IsKeyed (Dict.put store s.client_id s)
  put-IsKeyed store s valid k = record {
    own = λ key t h. elim (Bool-cases (text_eq s.client_id key)) [
      | inl same ↦
          let e = (text_eq_iff s.client_id key).0 same in
          let t_is_s : some s ≡ some t =
            subst (λ (o : Option (ClientSession H)). o ≡ some t)
              (subst
                (λ b.
                  Dict.get (Dict.put store s.client_id s) key
                  ≡ (if b then some s else Dict.get store key))
                same (get-put store s.client_id s key))
              h in
          (cc, subst IsClientId e valid)
      | inr other ↦ k.own key t (
          subst (λ (o : Option (ClientSession H)). o ≡ some t)
            (subst
              (λ b.
                Dict.get (Dict.put store s.client_id s) key
                ≡ (if b then some s else Dict.get store key))
              other (get-put store s.client_id s key))
            h)
    ];
    unique = put-IsUnique store s.client_id s k.unique;
  }

  pub save-IsKeyed :
      (store : Sessions H) (s : ClientSession H)
      → IsClientId s.client_id
      → IsKeyed store
      → IsKeyed (save store s)
  unfolding save
  save-IsKeyed = put-IsKeyed

  pub remove-IsKeyed :
      (store : Sessions H) (key : Text) → IsKeyed store → IsKeyed (Dict.remove store key)
  remove-IsKeyed store key k = record {
    own = λ j s h. k.own j s (ground (arith, get-remove store key j));
    unique = remove-IsUnique store key k.unique;
  }

  -- The call leaves a keyed store, in which only the target's session may have changed, to what
  -- the call leaves.
  pub record Refines (now : ℕ) (store : Sessions H) (op : Op) (store' : Sessions H) : Type 0 where
    pub keyed : IsKeyed store'
    pub view :
        (j : Text)
        → Dict.get store' j ≡ (
            if text_eq (lower (target op)) j
            then left_by now op (Dict.get store (lower (target op)))
            else Dict.get store j)

  module _ (now : ℕ) (store : Sessions H) (id : Text) where
    abbrev fresh : Sessions H
    fresh = Dict.put store (lower id) (new_session now (lower id))

    module _ (valid : IsClientId (lower id)) (keyed : IsKeyed store) where
      created : Refines now store (create' id) fresh
      created = record {
        keyed = put-IsKeyed store (new_session now (lower id)) valid keyed;
        view = λ j. get-put store (lower id) (new_session now (lower id)) j;
      }

      replaced :
          Refines now store
            (replace' id)
            (Dict.put (Dict.remove store (lower id)) (lower id) (new_session now (lower id)))
      replaced = record {
        keyed =
            put-IsKeyed _ (new_session now (lower id)) valid
              (remove-IsKeyed store (lower id) keyed);
        view = λ j. simp dict_laws (ground arith);
      }

      discarded : Refines now store (discard' id) (Dict.remove store (lower id))
      discarded = record {
        keyed = remove-IsKeyed store (lower id) keyed;
        view = λ j. get-remove store (lower id) j;
      }

      kept :
          (s : ClientSession H)
          → Dict.get store (lower id) ≡ some s
          → Refines now store (get_or_create' id) store
      kept s e = record {
        keyed = keyed;
        view = λ j. rw e (ground (arith, text_eq_iff (lower id) j));
      }

      made : Dict.get store (lower id) ≡ none → Refines now store (get_or_create' id) fresh
      made e = record {
        keyed = put-IsKeyed store (new_session now (lower id)) valid keyed;
        view = λ j. rw (e, get-put store (lower id) (new_session now (lower id)) j) refl;
      }

  -- From sessions that each stand under their own id, a call (create, get_or_create, replace or
  -- discard) whose id is valid in lower case succeeds, keeps them so, changes the session of the
  -- lower-case id as a map of sessions would, and no other; a call with any other id raises
  -- ValueError.
  pub run-Refines :
      (now : ℕ) (store : Sessions H) (op : Op)
      → IsKeyed store
      → ((store' : Sessions H) × (run now store op ≡ ok store') × Refines now store op store')
        ⊎ ((run now store op ≡ err value_error) × (¬ IsClientId (lower (target op))))
  unfolding run create get_or_create or_create replace discard get
  run-Refines now store (create' id) keyed = elim (normalize-cases id) [
    | inl (e, v) ↦ inl (fresh now store id, rw e refl, created now store id v keyed)
    | inr e ↦ inr (rw e refl, refused id e)
  ]
  run-Refines now store (get_or_create' id) keyed = elim (normalize-cases id) [
    | inl (e, v) ↦ elim (Option-cases (Dict.get store (lower id))) [
      | inl missing ↦
          inl (fresh now store id, rw e (rw missing (rw e refl)), made now store id v keyed missing)
      | inr (s, found) ↦ inl (store, rw e (rw found refl), kept now store id v keyed s found)
    ]
    | inr e ↦ inr (rw e refl, refused id e)
  ]
  run-Refines now store (replace' id) keyed = elim (normalize-cases id) [
    | inl (e, v) ↦
        inl (_, rw e (rw (normalize_fixed (lower id) v) refl), replaced now store id v keyed)
    | inr e ↦ inr (rw e refl, refused id e)
  ]
  run-Refines now store (discard' id) keyed = elim (normalize-cases id) [
    | inl (e, v) ↦ inl (Dict.remove store (lower id), rw e refl, discarded now store id v keyed)
    | inr e ↦ inr (rw e refl, refused id e)
  ]

  -- What `get` and `require` read.
  pub get_valid :
      (store : Sessions H) (id : Text) → IsClientId id → get store id ≡ ok (Dict.get store id)
  unfolding get
  get_valid store id v = rw (normalize_fixed id v) refl

  pub require_found :
      (store : Sessions H) (id : Text) (s : ClientSession H)
      → IsClientId id
      → Dict.get store id ≡ some s
      → require store id ≡ ok s
  unfolding require get
  require_found store id s v e = rw (normalize_fixed id v) (rw e refl)

  found_sound :
      (o : Option (ClientSession H)) (s : ClientSession H)
      → found_or file_not_found o ≡ ok s
      → o ≡ some s
  found_sound none s h = absurd (cc)
  found_sound (some t) s h = cc

  pub require_valid :
      (store : Sessions H) (id : Text)
      → IsClientId id
      → require store id ≡ found_or file_not_found (Dict.get store id)
  unfolding require get
  require_valid store id v = rw (normalize_fixed id v) refl

  pub require_sound :
      (store : Sessions H) (id : Text) (s : ClientSession H)
      → IsClientId id
      → require store id ≡ ok s
      → Dict.get store id ≡ some s
  require_sound store id s v h =
      found_sound (Dict.get store id) s (sym (require_valid store id v) ∙ h)
