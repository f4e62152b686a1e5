-- ===== src/Metadata/Encoding.antt =====
-- metadata.go, `MarshalJSON` and `UnmarshalJSON`: the metadata of a file as JSON, with its hash as a
-- decimal text. The JSON of the struct that carries it is a parameter.
use hydfs.Prelude.{
  ℕ, zero, suc, Text, ◌≡◌, refl, Option, none, some, List, [], ◌∷◌, Bool, true, false, ◌==◌,
  if◌then◌else◌, arith, ◌≢◌, All,
}
use hydfs.Prelude.Decimal.{ℤ, pos, negsuc, show_nat, read_digits, read_digits-show_nat}
use hydfs.Prelude.Digits.{IsDigit, show_nat-IsDigit, show_nat-ne-nil}
use hydfs.Metadata.{AppendInfo, FileMetadata}

-- the anonymous struct of both methods
pub record EncodedFile : Type 0 where
  pub file_name : Text
  pub file_content_hash : Text
  pub file_name_hash : Text
  pub creation_time : Text
  pub appends : List AppendInfo

-- `FileMetadata` of the model holds the absolute value of the hash; this is its sign.
pub record SignedFile : Type 0 where
  pub file : FileMetadata
  pub is_negative : Bool

read_whole : Text → Option ℕ
unfolding read_digits
read_whole [] = none
read_whole (c ∷ cs) = read_digits 0 (c ∷ cs)

signed : Bool → Option ℕ → Option ℤ
signed minus none = none
signed minus (some zero) = some (pos zero)
signed false (some (suc n)) = some (pos (suc n))
signed true (some (suc n)) = some (negsuc n)

signed_pos : (n : ℕ) → signed false (some n) ≡ some (pos n)
unfolding signed
signed_pos zero = refl
signed_pos (suc n) = refl

-- `SetString(s, 10)` of `big.Int`: an optional sign, and digits
unfoldable pub set_string : Text → Option ℤ
unfolding read_whole signed
set_string [] = none
set_string (c ∷ cs) =
    if c == b'-'
    then signed true (read_whole cs)
    else if c == b'+'
    then signed false (read_whole cs)
    else signed false (read_whole (c ∷ cs))

abbrev pub encoded : FileMetadata → EncodedFile
unfolding show_nat
encoded fm = record {
  file_name = fm.file_name;
  file_content_hash = fm.file_content_hash;
  file_name_hash = show_nat fm.file_name_hash;
  creation_time = fm.creation_time;
  appends = fm.appends;
}

abbrev decoded_file : EncodedFile → ℕ → FileMetadata
decoded_file aux n = record {
  file_name = aux.file_name;
  file_content_hash = aux.file_content_hash;
  file_name_hash = n;
  creation_time = aux.creation_time;
  appends = aux.appends;
}

-- `fm.FileNameHash = *fileNameHash` and the other fields
with_hash : EncodedFile → ℤ → SignedFile
with_hash aux (pos n) = record { file = decoded_file aux n; is_negative = false }
with_hash aux (negsuc n) = record { file = decoded_file aux (suc n); is_negative = true }

parsed : EncodedFile → Option ℤ → Option SignedFile
unfolding with_hash
parsed aux none = none
parsed aux (some hash) = some (with_hash aux hash)

received : Option EncodedFile → Option SignedFile
unfolding parsed set_string
received none = none
received (some aux) = parsed aux (set_string aux.file_name_hash)

module _ (marshal : EncodedFile → Option Text) (unmarshal : Text → Option EncodedFile) where
  unfoldable pub marshal_json : FileMetadata → Option Text
  unfolding show_nat
  marshal_json fm = marshal (encoded fm)

  -- `none` is an error, and then nothing is written.
  unfoldable pub unmarshal_json : Text → Option SignedFile
  unfolding received
  unmarshal_json json = received (unmarshal json)

read_whole_of_digits :
    (s : Text) (n : ℕ) → s ≢ [] → read_digits 0 s ≡ some n → read_whole s ≡ some n
unfolding read_whole
read_whole_of_digits [] n h e = absurd (h refl)
read_whole_of_digits (c ∷ cs) n h e = e

set_string_of_digits :
    (s : Text) (n : ℕ)
    → s ≢ []
    → All IsDigit s
    → read_digits 0 s ≡ some n
    → set_string s ≡ some (pos n)
unfolding set_string
set_string_of_digits [] n h d e = absurd (h refl)
set_string_of_digits (c ∷ cs) n h d e =
    ground (arith, read_whole_of_digits (c ∷ cs) n h e, signed_pos n)

-- If the JSON of the struct reads back as the struct that was written, then the metadata of a file,
-- whatever its hash is, are written and read back as they were: the hash goes through its decimal
-- text.
pub unmarshal_json-marshal_json :
    (marshal : EncodedFile → Option Text) (unmarshal : Text → Option EncodedFile)
    (fm : FileMetadata) (json : Text)
    → ((t : Text) → marshal (encoded fm) ≡ some t → unmarshal t ≡ some (encoded fm))
    → marshal_json marshal unmarshal fm ≡ some json
    → unmarshal_json marshal unmarshal json ≡ some (record { file = fm; is_negative = false })
unfolding marshal_json unmarshal_json received parsed with_hash encoded
unmarshal_json-marshal_json marshal unmarshal fm json law w =
    rw
      (
        law json w,
        set_string_of_digits (show_nat fm.file_name_hash) fm.file_name_hash
            (show_nat-ne-nil fm.file_name_hash) (show_nat-IsDigit fm.file_name_hash)
            (read_digits-show_nat fm.file_name_hash),
      )
      refl
