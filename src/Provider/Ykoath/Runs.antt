-- ===== src/Provider/Ykoath/Runs.antt =====
-- provider/ykoath.go: the theorem on the YKOATH applet at a card with room for one credential.
use go_skes.Prelude.{◌≡◌, refl, List, [], ◌∷◌, none, bytes_equal, codes}
use go_skes.Provider.Ykoath.{
  card, not_exist, id_challenge, keys, key_loop, name_by_id, name_loop, key_id, destroy_key,
  create_key_from_secret, open_key,
}
use go_skes.Provider.Ykoath.Calls.{
  Call, list_keys, create, destroy, open_by, created, failed, listed, opened, destroyed, step, run,
  DoesAll,
}
use go_skes.Provider.Ykoath.Refinement.{run-DoesAll}
use go_skes.Provider.Ykoath.Sample.{no_space, find, one_slot, documented}

-- A key is created, a second one has no room, and the first one is found, opened and destroyed.
abbrev calls : List Call
calls =
    create (codes "work") (1 ∷ 2 ∷ [])
    ∷ create (codes "home") (3 ∷ [])
    ∷ list_keys
    ∷ open_by (1 ∷ 2 ∷ id_challenge)
    ∷ open_by (7 ∷ [])
    ∷ destroy (1 ∷ 2 ∷ id_challenge)
    ∷ []

two_calls_lem :
    (run one_slot calls none).1
    ≡ created (1 ∷ 2 ∷ id_challenge)
      ∷ failed (card no_space)
      ∷ listed ((1 ∷ 2 ∷ id_challenge) ∷ [])
      ∷ opened (codes "work")
      ∷ failed not_exist
      ∷ destroyed
      ∷ []
unfolding run step keys key_loop name_by_id name_loop key_id destroy_key create_key_from_secret
    open_key bytes_equal
two_calls_lem = refl

run-DoesAll_example :
    DoesAll one_slot documented (find none) calls (run one_slot calls none).1 (find none)
unfolding documented run step keys key_loop name_by_id name_loop key_id destroy_key
    create_key_from_secret open_key bytes_equal
run-DoesAll_example = run-DoesAll one_slot documented calls none
