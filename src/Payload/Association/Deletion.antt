-- ===== src/Payload/Association/Deletion.antt =====
-- When the deletion of an association makes a query, and which.
use slurm_web_plus.Prelude.{
  String, Bool, true, ◌&&◌, List, [], ◌∷◌, Option, none, some, ◌≡◌, ◌↔◌, sym, ap, ◌∙◌, arith,
}
use slurm_web_plus.Prelude.Dict.{Dict, get}
use slurm_web_plus.Prelude.Result.{Result, ok, err, ◌>>◌, require, >>=-eq-ok}
use slurm_web_plus.Json.Value.{Json, as_dict, truthy, get_or_null, get_or}
use slurm_web_plus.Payload.Entries.{listed}
use slurm_web_plus.Payload.Association.{
  name, dict_or, the_only, delete_query, needs, association_delete_query,
}
use slurm_web_plus.Payload.Association.Query.{
  list_query, list_query_dict, dict_query, query_of_payload,
}

-- What the deletion of an association needs: a dictionary with one association, which names an account
-- and a user, and a cluster, its own or the current one.
pub record Deletes (cluster : Option String) (payload : Json) (query : Dict Json) : Type 0 where
  pub fields : Dict Json
  pub is_dict : as_dict payload ≡ some fields
  pub entry : Json
  pub single : listed (get "associations" fields) ≡ some (entry ∷ [])
  pub association : Dict Json
  pub entry_is_dict : as_dict entry ≡ some association
  pub account : truthy (get_or_null "account" association) ≡ true
  pub user : truthy (get_or_null "user" association) ≡ true
  pub cluster_known : truthy (get_or "cluster" (name cluster) association) ≡ true
  pub query_eq :
      query
      ≡ ("account", get_or_null "account" association)
        ∷ ("user", get_or_null "user" association)
        ∷ ("cluster", get_or "cluster" (name cluster) association)
        ∷ []

delete_query_sound :
    (c : Json) (a query : Dict Json)
    → delete_query c a ≡ ok query
    → (truthy (get_or_null "account" a) ≡ true)
      × (truthy (get_or_null "user" a) ≡ true)
      × (truthy (get_or "cluster" c a) ≡ true)
      × (query
          ≡ ("account", get_or_null "account" a)
            ∷ ("user", get_or_null "user" a)
            ∷ ("cluster", get_or "cluster" c a)
            ∷ [])
unfolding delete_query
delete_query_sound c a query h = tests _ _ _ _ h
  where
    tests :
        (x y z : Bool) (q : Dict Json)
        → ◌≡◌ {A = Result String (Dict Json)} (require (x && y && z) needs >> ok q) (ok query)
        → (x ≡ true) × (y ≡ true) × (z ≡ true) × (query ≡ q)
    tests x y z q e = ground arith

delete_query_complete :
    (c : Json) (a : Dict Json)
    → truthy (get_or_null "account" a) ≡ true
    → truthy (get_or_null "user" a) ≡ true
    → truthy (get_or "cluster" c a) ≡ true
    → delete_query c a
      ≡ ok (
          ("account", get_or_null "account" a)
          ∷ ("user", get_or_null "user" a)
          ∷ ("cluster", get_or "cluster" c a)
          ∷ [])
unfolding delete_query
delete_query_complete c a x y z = tests _ _ _ _ x y z
  where
    tests :
        (x y z : Bool) (q : Dict Json)
        → x ≡ true
        → y ≡ true
        → z ≡ true
        → ◌≡◌ {A = Result String (Dict Json)} (require (x && y && z) needs >> ok q) (ok q)
    tests x y z q e f g = ground arith

the_only_sound : (l : Option (List Json)) (x : Json) → the_only l ≡ ok x → l ≡ some (x ∷ [])
the_only_sound none x h = cc
the_only_sound (some []) x h = cc
the_only_sound (some (y ∷ [])) x h = ap (λ j. some (j ∷ [])) (cc (h))
the_only_sound (some (y ∷ z ∷ l)) x h = cc

dict_or_sound :
    (message : String) (j : Json) (d : Dict Json) → dict_or message j ≡ ok d → as_dict j ≡ some d
dict_or_sound message j d h = step (as_dict j) h
  where
    step :
        (o : Option (Dict Json))
        → ◌≡◌ {A = Result String (Dict Json)} (elim o [ none ↦ err message | some e ↦ ok e ]) (ok d)
        → o ≡ some d
    step none e = cc (e)
    step (some f) e = cc (e)

-- A query is made exactly when the payload is a dictionary with one association, which names an account
-- and a user, and a cluster unless the current one is known; it is the query of these three.
pub association_delete_query_iff :
    (cluster : Option String) (payload : Json) (query : Dict Json)
    → (association_delete_query cluster payload ≡ ok query) ↔ Deletes cluster payload query
association_delete_query_iff cluster payload query = (sound, complete)
  where
    sound : association_delete_query cluster payload ≡ ok query → Deletes cluster payload query
    sound h =
        let h₀ = sym (query_of_payload cluster payload) ∙ h in
        let (d, e, h₁) =
          >>=-eq-ok (dict_or "Association delete payload must be a dictionary" payload) _ h₀ in
        let (x, f, h₂) = >>=-eq-ok (the_only (listed (get "associations" d))) _ h₁ in
        let (a, g, h₃) =
          >>=-eq-ok (dict_or "Association delete entry must be a dictionary" x) _ h₂ in
        let (account, user, known, same) = delete_query_sound (name cluster) a query h₃ in
        record {
          fields = d;
          is_dict = dict_or_sound "Association delete payload must be a dictionary" payload d e;
          entry = x;
          single = the_only_sound (listed (get "associations" d)) x f;
          association = a;
          entry_is_dict = dict_or_sound "Association delete entry must be a dictionary" x a g;
          account = account;
          user = user;
          cluster_known = known;
          query_eq = same;
        }

    complete : Deletes cluster payload query → association_delete_query cluster payload ≡ ok query
    complete s =
        query_of_payload cluster payload
        ∙ dict_query (name cluster) payload s.fields s.is_dict
        ∙ ap (list_query (name cluster)) s.single
        ∙ list_query_dict (name cluster) s.entry s.association s.entry_is_dict
        ∙ delete_query_complete (name cluster) s.association s.account s.user s.cluster_known
        ∙ ap ok (sym s.query_eq)
