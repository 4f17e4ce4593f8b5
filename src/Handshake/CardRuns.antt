-- ===== src/Handshake/CardRuns.antt =====
-- The theorem on the handshake with a key on a card, at an empty card.
use go_skes.Prelude.{◌≡◌, refl, none, some, ◌∷◌, [], codes, update}
use go_skes.Prelude.Post.{Post}
use go_skes.Provider.Ykoath.Sample.{find, one_slot, documented}
use go_skes.Provider.Ykoath.Behaviour.{FromCard}
use go_skes.Handshake.Oath.{put_uint64}
use go_skes.Handshake.CardKey.{created_secret, created_secret-Post}

created_secret-Post_example :
    Post
      (λ code s'.
        (find s'
          ≡ update (find none) (codes "work") (some (record { algorithm = 2; secret = 7 ∷ [] })))
        × (code ≡ 7 ∷ put_uint64 3))
      (λ e s'. FromCard e)
      (created_secret one_slot documented (codes "work") (7 ∷ []) 30 100)
      none
unfolding documented
created_secret-Post_example =
    created_secret-Post one_slot documented (find none) (codes "work") (7 ∷ [])
      (λ n k is_key. let there = is_key.0 in cc) 30 100 none refl
