-- ===== src/Storage/Paths.antt =====
-- The names of the files of microblocks (Storage.ts). A text is the list of its characters.
use carmentis_node.Base.{
  ℕ, zero, suc, ◌+◌, ◌-◌, ◌*◌, ◌/◌, ◌%◌, Bool, true, not, ◌&&◌, ◌||◌, List, [], ◌∷◌, ◌++◌, Bytes,
  ltb, leb, ◌==◌, if◌then◌else◌, length, get_or, replicate, take, drop,
}

-- `Utils.decodeDay`, `Date.UTC` in seconds, and `path.join`.
pub record Calendar : Type 0 where
  pub decode_day : ℕ → ℕ × ℕ × ℕ
  pub utc_seconds : ℕ → ℕ → ℕ → ℕ
  pub join : Bytes → Bytes → Bytes

-- A digit of a base up to 16: `0` to `9`, then `a` to `f`.
abbrev pub digit : ℕ → ℕ
digit d = if ltb d 10 then 48 + d else 87 + d

-- `n.toString(base)`, with at most as many digits as the fuel says
unfoldable pub digits : ℕ → ℕ → ℕ → Bytes
digits zero base n = []
digits (suc fuel) base n =
    let front = digits fuel base (n / base) in
    if ltb n base then digit n ∷ [] else front ++ (digit (n % base) ∷ [])

-- A number has no more digits than its successor.
abbrev pub to_string : ℕ → ℕ → Bytes
to_string base n = digits (suc n) base n

-- `text.padStart(2, '0')`
abbrev pub pad_start : Bytes → Bytes
pad_start text = replicate (2 - length text) 48 ++ text

-- `Storage.getFileIdentifier`
unfoldable pub get_file_identifier : ℕ → Bytes → ℕ
get_file_identifier expiration_day hash =
    if expiration_day == 0 then 0xff000000 + get_or hash 0 0 else expiration_day

-- `.bin`
abbrev pub extension : Bytes
extension = 46 ∷ 98 ∷ 105 ∷ 110 ∷ []

-- `endless`
abbrev pub endless_directory_name : Bytes
endless_directory_name = 101 ∷ 110 ∷ 100 ∷ 108 ∷ 101 ∷ 115 ∷ 115 ∷ []

module _ (calendar : Calendar) where
  -- The directory and the name, without its extension, of a file.
  unfoldable pub directory_of : ℕ → Bytes
  directory_of file_identifier =
      if ltb file_identifier 0xff000000
      then to_string 10 (calendar.decode_day file_identifier).0
      else endless_directory_name

  unfoldable pub filename_of : ℕ → Bytes
  filename_of file_identifier =
      let (year, month, day) = calendar.decode_day file_identifier in
      if ltb file_identifier 0xff000000
      then to_string 10 year ++ (pad_start (to_string 10 month) ++ pad_start (to_string 10 day))
      else pad_start (to_string 16 (file_identifier % 256))

  -- `getFilePath`; the directory that it makes is left out
  unfoldable pub get_file_path : Bytes → ℕ → Bytes
  unfolding directory_of filename_of
  get_file_path path file_identifier =
      calendar.join (calendar.join path (directory_of file_identifier))
        (filename_of file_identifier ++ extension)

-- `\d`
abbrev pub is_digit : ℕ → Bool
is_digit c = leb 48 c && leb c 57

unfoldable pub all_digits : Bytes → Bool
all_digits [] = true
all_digits (c ∷ text) = is_digit c && all_digits text

-- `/^\d{4}$/` and `/^(\d{4})(\d{2})(\d{2})$/`
abbrev pub is_directory_name : Bytes → Bool
is_directory_name name = (length name == 4) && all_digits name

abbrev pub is_file_name : Bytes → Bool
is_file_name name = (length name == 8) && all_digits name

-- `Number` of a text of digits
unfoldable pub number_of : ℕ → Bytes → ℕ
number_of n [] = n
number_of n (c ∷ text) = number_of (n * 10 + (c - 48)) text

-- What `readdir` gives: a file, or a directory with its files.
pub record SubEntry : Type 0 where
  pub name : Bytes
  pub is_file : Bool

pub record RootEntry : Type 0 where
  pub name : Bytes
  pub is_directory : Bool
  pub entries : List SubEntry

module _ (calendar : Calendar) where
  abbrev pub expiration_day : Bytes → ℕ
  expiration_day name =
      calendar.utc_seconds (number_of 0 (take 4 name)) (number_of 0 (take 2 (drop 4 name)))
        (number_of 0 (drop 6 name))

  -- The inner loop of `getFilesWithExpirationDayBefore`.
  unfoldable pub expired_in : Bytes → ℕ → List SubEntry → List Bytes
  expired_in sub_path day_timestamp [] = []
  expired_in sub_path day_timestamp (e ∷ entries) =
      let rest = expired_in sub_path day_timestamp entries in
      if not e.is_file || not (is_file_name e.name)
      then rest
      else if ltb (expiration_day e.name) day_timestamp
      then calendar.join sub_path e.name ∷ rest
      else rest

  -- `getFilesWithExpirationDayBefore`
  unfoldable pub get_files_with_expiration_day_before : Bytes → ℕ → List RootEntry → List Bytes
  get_files_with_expiration_day_before path day_timestamp [] = []
  get_files_with_expiration_day_before path day_timestamp (e ∷ entries) =
      let rest = get_files_with_expiration_day_before path day_timestamp entries in
      if not e.is_directory || not (is_directory_name e.name)
      then rest
      else expired_in (calendar.join path e.name) day_timestamp e.entries ++ rest
