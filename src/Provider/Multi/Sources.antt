-- ===== src/Provider/Multi/Sources.antt =====
-- The keys in files and the keys on a YKOATH applet as sources of keys: provider/file.go and
-- provider/ykoath.go behind the interface of provider/provider.go.
use mathlib.Core.List.Permᴰ
use go_skes.Prelude.{
  Bool, ◌≡◌, refl, sym, ap, ◌∙◌, ◌⊎◌, inl, inr, List, [], ◌∷◌, Option, some, All, Any-map, Bytes,
  Outcome, ok, err, panic, stuck,
}
use go_skes.Prelude.Exec.{Exec}
use go_skes.Prelude.Post.{Ensures, Post}
use go_skes.Provider.File
use go_skes.Provider.File.{Directory, listed, absent, unlisted, Crypto, FileKey, list_keys}
use go_skes.Provider.Store
use go_skes.Provider.Store.{Write}
use go_skes.Provider.Lookup.{Iterates, All-Perm, HasId}
use go_skes.Provider.Listing.{Distinct}
use go_skes.Provider.Session.{Order, view, KeyFile, AllIds, generated}
use go_skes.Provider.Session.Refinement.{list_keys-ListEnds}
use go_skes.Provider.Session.Ends.{ListEnds}
use go_skes.Provider.Ykoath
use go_skes.Provider.Ykoath.{Applet, YkoathKey}
use go_skes.Provider.Ykoath.Behaviour.{Documented, Vault, Cred, IsKey, ident, Failed}
use go_skes.Provider.Ykoath.Listing
use go_skes.Provider.Ykoath.Listing.{keys-Post}
use go_skes.Provider.Multi.{Provider}
use go_skes.Provider.Multi.Laws.{Lists, Worlds, Source}

-- The directory of the keys is listed, with distinct names, or is not there, or cannot be listed.
abbrev pub ValidDirectory : Directory → Type 0
ValidDirectory (listed des) = Distinct des
ValidDirectory absent = Unit {0}
ValidDirectory unlisted = Unit {0}

none_left : (l : List (Bytes × Bytes)) → All (λ b. ⊥) l → l ≡ []
none_left [] h = refl
none_left (b ∷ l) h = absurd h.0

module _ (C : Crypto) (A : Applet) (D : Documented A) where
  abbrev pub World : Type 0
  World = Directory × A.Card

  pub data SourceError : Type 0 where
    of_file : File.Error → SourceError
    of_card : Ykoath.Error A.Failure → SourceError

  abbrev pub AnyKey : Type 0
  AnyKey = FileKey ⊎ YkoathKey A

  abbrev pub worlds : Worlds World
  worlds = record {
    Valid = λ s. ValidDirectory s.0;
    Same = λ s s'. (s.0 ≡ s'.0) × (D.vault s.1 ≡ D.vault s'.1);
    same_refl = λ s. (refl, refl);
    same_sym = λ s s' h. (sym h.0, sym h.1);
    same_trans = λ s s' s'' h k. (h.0 ∙ k.0, h.1 ∙ k.1);
  }

  abbrev pub from_files : {R R' : Type 0} → (R → R') → Outcome File.Error R → Outcome SourceError R'
  from_files f (ok r) = ok (f r)
  from_files f (err e) = err (of_file e)
  from_files f panic = panic
  from_files f stuck = stuck

  abbrev pub from_applet :
      {R R' : Type 0} → (R → R') → Outcome (Ykoath.Error A.Failure) R → Outcome SourceError R'
  from_applet f (ok r) = ok (f r)
  from_applet f (err e) = err (of_card e)
  from_applet f panic = panic
  from_applet f stuck = stuck

  -- A call on the files, or on the card, as one on the world of both.
  abbrev pub on_files :
      {R R' : Type 0} → (R → R') → Exec Directory File.Error R → Exec World SourceError R'
  on_files f m s = (((m s.0).0, s.1), from_files f (m s.0).1)

  abbrev pub on_card :
      {R R' : Type 0}
      → (R → R')
      → Exec A.Card (Ykoath.Error A.Failure) R
      → Exec World SourceError R'
  on_card f m s = ((s.0, (m s.1).0), from_applet f (m s.1).1)

  -- The key file with this identifier.
  abbrev pub HasFile : Directory → Bytes → Type 0
  HasFile (listed des) id = (b : Bytes × Bytes) × KeyFile (view des) b.0 (some b.1) × HasId C id b.1
  HasFile absent id = ⊥
  HasFile unlisted id = ⊥

  abbrev pub HasCred : Vault A → Bytes → Type 0
  HasCred v id = (n : Bytes) × (k : Cred A.Algorithm) × IsKey A D v n k × (id ≡ ident A D k)

  AllIds-Lists :
      (des : List File.Entry) (ids : List Bytes)
      → AllIds C (view des) ids
      → Lists (HasFile (listed des)) ids
  AllIds-Lists des ids (sound, complete) = (
    sound,
    λ id (b, file, (sk, loads, same)).
        let (key, sk', is, loads', any) = complete b.0 (some b.1) file in
        let key_same : b.1 ≡ key = cc in
        let one : some sk ≡ some sk' = sym loads ∙ (ap C.new_private_key key_same ∙ loads') in
        let sk_same : sk' ≡ sk = cc in
        Any-map (λ i. i ≡ File.key_id C sk') (λ i. i ≡ id) ids
          (λ i h. h ∙ (ap (λ k. File.key_id C k) sk_same ∙ same)) any,
  )

  module _ (order : Order) (iterates : Iterates order) (random : Option C.Key) (w : Write)
      (works : Bool) where
    -- newFileProvider's provider, where it succeeded.
    abbrev pub file_provider : Provider World SourceError AnyKey
    file_provider = record {
      keys = on_files (λ ids. ids) (λ dir. (dir, list_keys C order dir));
      create_key = λ label. on_files (λ id. id) (Store.create_key C w label (generated random));
      open_key = λ id. on_files (λ k. inl k) (λ dir. (dir, File.open_key C order id dir));
      destroy_key = λ id. on_files (λ u. u) (Store.destroy_key C order works id);
    }

    file_keys :
        (s : World) (r : Outcome File.Error (List Bytes)) (des : List File.Entry)
        → s.0 ≡ listed des
        → Distinct des
        → ListEnds C (view des) r
        → Ensures
            (λ ids s'. ValidDirectory s'.0 × worlds.Same s s' × Lists (HasFile s.0) ids)
            (λ e s'. ValidDirectory s'.0 × worlds.Same s s')
            s
            (from_files (λ ids. ids) r)
    file_keys s (ok ids) des is distinct h = rw is (distinct, (refl, refl), AllIds-Lists des ids h)
    file_keys s (err e) des is distinct h = rw is (distinct, (refl, refl))
    file_keys s panic des is distinct h = absurd h
    file_keys s stuck des is distinct h = absurd h

    file_lem :
        (s : World)
        → ValidDirectory s.0
        → Post
            (λ ids s'. ValidDirectory s'.0 × worlds.Same s s' × Lists (HasFile s.0) ids)
            (λ e s'. ValidDirectory s'.0 × worlds.Same s s')
            (on_files (λ ids. ids) (λ dir. (dir, list_keys C order dir)))
            s
    unfolding list_keys File.keys File.key_files File.read_all File.id_loop
    file_lem (listed des, c) distinct =
        file_keys (listed des, c) (list_keys C order (listed des)) des refl distinct
          (list_keys-ListEnds C order iterates des distinct)
    file_lem (absent, c) valid =
        let nothing : order [] ≡ [] =
          none_left (order []) (All-Perm (λ b. ⊥) (Permᴰ.symm (iterates [])) tt) in
        rw nothing (tt, (refl, refl), (tt, λ id h. h))
    file_lem (unlisted, c) valid = (tt, (refl, refl))

    pub file_source : Source World SourceError AnyKey worlds
    file_source = record {
      provider = file_provider;
      Has = λ s. HasFile s.0;
      has_same = λ s s' id same h. rw (← same.0) h;
      keys_lem = file_lem;
    }

  module _ (random : Option Bytes) where
    -- newYKOATHProvider's provider.
    abbrev pub card_provider : Provider World SourceError AnyKey
    card_provider = record {
      keys = on_card (λ ids. ids) (Ykoath.keys A);
      create_key = λ label. on_card (λ id. id) (Ykoath.create_key A label random);
      open_key = λ id. on_card (λ k. inr k) (Ykoath.open_key A id);
      destroy_key = λ id. on_card (λ u. u) (Ykoath.destroy_key A id);
    }

    card_keys :
        (s : World) (c : A.Card) (r : Outcome (Ykoath.Error A.Failure) (List Bytes))
        → ValidDirectory s.0
        → Ensures
            (λ ids c'. (D.vault c' ≡ D.vault s.1) × Listing.AllIds A D (D.vault s.1) ids)
            (Failed A D (D.vault s.1))
            c
            r
        → Ensures
            (λ ids s'. ValidDirectory s'.0 × worlds.Same s s' × Lists (HasCred (D.vault s.1)) ids)
            (λ e s'. ValidDirectory s'.0 × worlds.Same s s')
            (s.0, c)
            (from_applet (λ ids. ids) r)
    card_keys s c (ok ids) valid (same, (sound, complete)) = (
      valid,
      (refl, sym same),
      (
        sound,
        λ id (n, k, is_key, is).
            Any-map (λ i. i ≡ ident A D k) (λ i. i ≡ id) ids (λ i h. h ∙ sym is)
              (complete n k is_key),
      ),
    )
    card_keys s c (err e) valid (same, f) = (valid, (refl, sym same))
    card_keys s c panic valid h = absurd h
    card_keys s c stuck valid h = absurd h

    pub card_source : Source World SourceError AnyKey worlds
    card_source = record {
      provider = card_provider;
      Has = λ s. HasCred (D.vault s.1);
      has_same = λ s s' id same h. rw (← same.1) h;
      keys_lem = λ s valid.
          card_keys s (Ykoath.keys A s.1).0 (Ykoath.keys A s.1).1 valid
            (keys-Post A D (D.vault s.1) s.1 refl);
    }
