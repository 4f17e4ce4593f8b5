-- ===== src/Provider/Multi/SourceRuns.antt =====
-- The theorem on joined sources at a directory and a card, each with one key.
use mathlib.Core.List.Permᴰ
use go_skes.Prelude.{true, List, [], ◌∷◌, none, some, codes, bytes_equal, refl}
use go_skes.Prelude.Post.{Post}
use go_skes.Provider.File.{listed}
use go_skes.Provider.Sample.{plain, in_order, entries}
use go_skes.Provider.Ykoath.Sample.{one_slot, documented}
use go_skes.Provider.Store.{complete}
use go_skes.Provider.Multi.{keys}
use go_skes.Provider.Multi.Laws.{Source, Lists, FailsIn, providers, HasAny, keys-Lists}
use go_skes.Provider.Multi.Sources.{World, SourceError, AnyKey, worlds, file_source, card_source}

abbrev sources : List (
    Source
      (World plain one_slot documented)
      (SourceError plain one_slot documented)
      (AnyKey plain one_slot documented)
      (worlds plain one_slot documented))
sources =
    file_source plain one_slot documented in_order Permᴰ.refl none complete true
    ∷ card_source plain one_slot documented none
    ∷ []

abbrev both : World plain one_slot documented
both = (listed entries, some (codes "work", record { algorithm = 2; secret = 7 ∷ [] }))

keys-Lists_example :
    let w = worlds plain one_slot documented in
    Post
      (λ ids s'. w.Valid s' × w.Same both s' × Lists (HasAny w sources both) ids)
      (FailsIn w sources both)
      (keys (providers w sources))
      both
unfolding bytes_equal
keys-Lists_example =
    keys-Lists (worlds plain one_slot documented) sources both
      ((refl, (refl, tt)), ((refl, tt), (tt, tt)))
