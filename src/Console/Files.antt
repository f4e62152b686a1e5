-- ===== src/Console/Files.antt =====
-- metadata.go, `PrintFileMetadata`: a file and its appends in order.
use hydfs.Prelude.{ℕ, suc, Text, codes, Option, none, some, List, [], ◌∷◌, ◌++◌, length}
use hydfs.Prelude.Decimal.{show_nat}
use hydfs.Metadata.{AppendInfo, FileMetadata, Metadata, get_file}
use hydfs.Console.{Console, console_printf}

console_lines : List Text → Console → Console
unfolding console_printf
console_lines [] c = c
console_lines (line ∷ lines) c = console_lines lines (console_printf line c)

-- one append, with its number
append_lines : ℕ → AppendInfo → List Text
unfolding show_nat
append_lines number a =
    (codes "  [" ++ show_nat number ++ codes "] AppendID:        " ++ a.append_id ++ 10 ∷ [])
    ∷ (codes "      ClientID:        " ++ a.client_id ++ 10 ∷ [])
    ∷ (codes "      ClientTimestamp: " ++ a.client_timestamp ++ 10 ∷ [])
    ∷ (codes "      AppendHash:      " ++ a.append_hash ++ 10 ∷ [])
    ∷ (codes "      Size:            " ++ show_nat a.size ++ codes " bytes\n")
    ∷ (10 ∷ [])
    ∷ []

all_append_lines : ℕ → List AppendInfo → List Text
unfolding append_lines
all_append_lines number [] = []
all_append_lines number (a ∷ appends) =
    append_lines number a ++ all_append_lines (suc number) appends

appends_part : List AppendInfo → List Text
unfolding all_append_lines
appends_part [] = []
appends_part (a ∷ appends) =
    codes "\n--- Appends (in order) ---\n" ∷ all_append_lines 1 (a ∷ appends)

file_lines : Text → Option FileMetadata → List Text
unfolding appends_part show_nat
file_lines filename none = (codes "File '" ++ filename ++ codes "' not found in metadata\n") ∷ []
file_lines filename (some file) =
    (codes "\n=== File Metadata: " ++ filename ++ codes " ===\n")
    ∷ (codes "FileName:        " ++ file.file_name ++ 10 ∷ [])
    ∷ (codes "FileContentHash: " ++ file.file_content_hash ++ 10 ∷ [])
    ∷ (codes "FileNameHash:    " ++ show_nat file.file_name_hash ++ 10 ∷ [])
    ∷ (codes "CreationTime:    " ++ file.creation_time ++ 10 ∷ [])
    ∷ (codes "Number of Appends: " ++ show_nat (length file.appends) ++ 10 ∷ [])
    ∷ (appends_part file.appends ++ codes "===========================\n\n" ∷ [])

-- `PrintFileMetadata`
unfoldable pub print_file_metadata : Text → Metadata → Console → Console
unfolding console_lines file_lines get_file
print_file_metadata filename m c = console_lines (file_lines filename (get_file filename m)) c
