-- ===== src/Provider/Session/Runs.antt =====
-- provider/file.go: a sequence of calls on a directory with one key.
use mathlib.Core.List.Permᴰ
use go_skes.Prelude.{
  All, true, false, ◌≡◌, refl, List, [], ◌∷◌, none, some, bytes_equal, codes, Bytes,
}
use go_skes.Provider.File
use go_skes.Provider.File.{exist, not_exist, load_key, generate_key, unwritten, not_removed}
use go_skes.Provider.Store
use go_skes.Provider.Store.{complete, broken}
use go_skes.Provider.Sample.{load, plain, in_order, entries}
use go_skes.Provider.Session.{
  Call, keys, create, create_from, destroy, open_by, listed, created, destroyed, opened, failed,
  run, step, Named,
}
use go_skes.Provider.Session.Refinement.{RunDoes, run-RunDoes}

abbrev calls : List (Call Bytes)
calls =
    keys
    ∷ create (codes "work") (some (3 ∷ [])) complete
    ∷ create (codes "b") (some (4 ∷ [])) complete
    ∷ create (codes "c") none complete
    ∷ create_from (codes "home") (0xff ∷ []) complete
    ∷ keys
    ∷ open_by (3 ∷ [])
    ∷ destroy (1 ∷ 2 ∷ []) true
    ∷ create (codes "new") (some (5 ∷ [])) (broken none)
    ∷ destroy (3 ∷ []) false
    ∷ open_by (1 ∷ 2 ∷ [])
    ∷ []

replies :
    (run plain (λ n. in_order) calls (File.listed entries)).1
    ≡ listed ((1 ∷ 2 ∷ []) ∷ [])
      ∷ created (3 ∷ [])
      ∷ failed exist
      ∷ failed generate_key
      ∷ failed load_key
      ∷ listed ((1 ∷ 2 ∷ []) ∷ (3 ∷ []) ∷ [])
      ∷ opened (record { key = 3 ∷ []; label = codes "work" })
      ∷ destroyed
      ∷ failed (unwritten (5 ∷ []))
      ∷ failed not_removed
      ∷ failed not_exist
      ∷ []
unfolding run step load File.keys File.key_files File.read_all File.load_private_key File.id_loop
    File.file_loop File.list_keys File.key_file_by_id File.key_by_id File.open_key Store.write_file
    Store.remove Store.save_key Store.create_key Store.create_key_from_secret Store.destroy_key
    bytes_equal
replies = refl

calls-Named : All Named calls
calls-Named = (tt, (refl, (refl, (refl, (refl, (tt, (tt, (tt, (refl, (tt, (tt, tt)))))))))))

run-RunDoes_example :
    RunDoes plain entries calls (run plain (λ n. in_order) calls (File.listed entries))
unfolding bytes_equal
run-RunDoes_example =
    run-RunDoes plain (λ n. in_order) calls entries (λ n l. Permᴰ.refl l) calls-Named
      ((refl, (refl, tt)), ((refl, tt), (tt, tt)))
