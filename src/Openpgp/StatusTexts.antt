-- ===== src/Openpgp/StatusTexts.antt =====
-- internal/openpgp/error.go: the texts of the status words.
use go_skes.Prelude.{ℕ, ◌+◌, ◌≡◌, refl, ◌++◌, List, [], ◌∷◌, All, codes}
use go_skes.Openpgp.Tables.{status_codes}
use go_skes.Openpgp.Errors.{decimal16, status_text}

-- The numbers of tries that a status word can tell.
abbrev up_to_fifteen : List ℕ
up_to_fifteen = 0 ∷ 1 ∷ 2 ∷ 3 ∷ 4 ∷ 5 ∷ 6 ∷ 7 ∷ 8 ∷ 9 ∷ 10 ∷ 11 ∷ 12 ∷ 13 ∷ 14 ∷ 15 ∷ []

-- Every status word of the table has its own text, which the test for remaining tries does not
-- shadow, and each of 63 C0 to 63 CF tells the number of tries that are left.
pub status_text_lem :
    All (λ entry. status_text entry.0 ≡ codes entry.1) status_codes
    × All
        (λ n.
          status_text (0x63C0 + n)
          ≡ codes "password not checked: " ++ (decimal16 n ++ codes " tries left"))
        up_to_fifteen
unfolding status_text
status_text_lem = (
  (
    refl,
    (
      refl,
      (
        refl,
        (
          refl,
          (
            refl,
            (
              refl,
              (
                refl,
                (
                  refl,
                  (
                    refl,
                    (
                      refl,
                      (
                        refl,
                        (
                          refl,
                          (
                            refl,
                            (
                              refl,
                              (refl, (refl, (refl, (refl, (refl, (refl, (refl, (refl, tt)))))))),
                            ),
                          ),
                        ),
                      ),
                    ),
                  ),
                ),
              ),
            ),
          ),
        ),
      ),
    ),
  ),
  (
    refl,
    (
      refl,
      (
        refl,
        (
          refl,
          (
            refl,
            (
              refl,
              (refl, (refl, (refl, (refl, (refl, (refl, (refl, (refl, (refl, (refl, tt)))))))))),
            ),
          ),
        ),
      ),
    ),
  ),
)
