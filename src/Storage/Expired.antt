-- ===== src/Storage/Expired.antt =====
-- Which files the search for expired files finds (Storage.ts).
use carmentis_node.Base.{ℕ, ◌≡◌, refl, false, List, [], ◌∷◌, ◌++◌, Bytes, arith}
use carmentis_node.Storage.Paths.{
  Calendar, SubEntry, RootEntry, filename_of, extension, all_digits, expired_in,
  get_files_with_expiration_day_before,
}

all_digits-extension : (text : Bytes) → all_digits (text ++ extension) ≡ false
unfolding all_digits
all_digits-extension [] = refl
all_digits-extension (c ∷ text) = ground (arith, all_digits-extension text)

module _ (calendar : Calendar) where
  -- Every file of a directory has a name that `getFilePath` gives to some file identifier.
  abbrev pub AreNamed : List SubEntry → Type 0
  AreNamed [] = Unit
  AreNamed (e ∷ entries) =
      ((file_identifier : ℕ) × (e.name ≡ filename_of calendar file_identifier ++ extension))
      × AreNamed entries

  abbrev pub AreNamedBelow : List RootEntry → Type 0
  AreNamedBelow [] = Unit
  AreNamedBelow (e ∷ entries) = AreNamed e.entries × AreNamedBelow entries

  expired_in-none :
      (path : Bytes) (day : ℕ) (entries : List SubEntry)
      → AreNamed entries
      → expired_in calendar path day entries ≡ []
  unfolding expired_in
  expired_in-none path day [] h = refl
  expired_in-none path day (e ∷ entries) ((f, named), h) = ground (
    arith,
    named,
    all_digits-extension (filename_of calendar f),
    expired_in-none path day entries h,
  )

  -- In directories that hold only files with names that `getFilePath` gives, no file is found to
  -- be expired, whatever the day: the names end in `.bin`, which the search does not expect.
  pub expired-none :
      (path : Bytes) (day : ℕ) (entries : List RootEntry)
      → AreNamedBelow entries
      → get_files_with_expiration_day_before calendar path day entries ≡ []
  unfolding get_files_with_expiration_day_before
  expired-none path day [] h = refl
  expired-none path day (e ∷ entries) (h, k) = ground (
    arith,
    expired_in-none (calendar.join path e.name) day e.entries h,
    expired-none path day entries k,
  )
