-- ===== src/Provider/Applese/Runs.antt =====
-- The theorems on provider/applese.go at an enclave with two keys, of which the second is opened and
-- destroyed.
use go_skes.Prelude.{◌≡◌, true, false, [], ◌∷◌, Bytes, arith}
use go_skes.Prelude.Post.{Post}
use go_skes.Ecdh.Applese.Sample.{plain}
use go_skes.Provider.Applese.{open_key, destroy_key}
use go_skes.Provider.Applese.Keychain.{Item, Kept, Own}
use go_skes.Provider.Applese.Opening.{Refused, open_key-Post}
use go_skes.Provider.Applese.Deletion.{Destroyed, destroy_key-Post}
use go_skes.Provider.Applese.Sample.{World, view, two_keys}
use go_skes.Provider.Applese.SampleLaws.{keychain, deleting}

abbrev marked : Bytes → Bytes
marked b = 1 ∷ b

abbrev id : Bytes
id = 1 ∷ 4 ∷ 2 ∷ []

abbrev world : World
world = ([], false ∷ true ∷ [], λ r. 0)

open_key-Post_example :
    Post
      (λ k s'. Kept view world s' × (it : Item) × Own view world k it s' × (marked it.public ≡ id))
      (Refused two_keys plain keychain marked world id)
      (open_key two_keys plain marked id)
      world
open_key-Post_example = open_key-Post two_keys plain keychain marked id world

destroy_key-Post_example :
    Post
      (Destroyed two_keys plain keychain marked world id)
      (Refused two_keys plain keychain marked world id)
      (destroy_key two_keys plain marked 1 id)
      world
destroy_key-Post_example =
    destroy_key-Post two_keys plain keychain marked deleting 1 id world (omega arith)
