-- ===== src/Torrent/FileNames/Examples.antt =====
-- GetFileName: runs, and the theorems at concrete inputs.
use socket_template.Base.{
  ◌+◌, ◌*◌, ◌≡◌, refl, true, false, [], ◌∷◌, ◌++◌, replicate, ◌==◌, if◌then◌else◌, pos, arith,
}
use socket_template.Torrent.{File, Info, get_file_total}
use socket_template.Torrent.Pieces.{HasPieces}
use socket_template.Torrent.FileNames.{
  folder, unused_all, next_files, find_files, get_file_name, get_file_names,
}
use socket_template.Torrent.FileNames.Several.{find_files_across}
use socket_template.Torrent.FileNames.Single.{get_file_names-single}

abbrev one_file : Info
one_file = record {
  files = [];
  pieces = replicate 60 0;
  name = 97 ∷ [];
  length = 85536;
  piece_length = 32768;
  single = true;
}

one_file-HasPieces : HasPieces one_file 3 20000
unfolding get_file_total
one_file-HasPieces = record {
  hashes = refl;
  some_piece = omega arith;
  some_byte = omega arith;
  last_fits = omega arith;
  all = omega arith;
  count_fits = omega arith;
  piece_fits = omega arith;
}

get_file_names-single_example :
    get_file_names one_file (pos 2)
    ≡ (97 ∷ [], pos (2 * 32768), pos (if 2 + 1 == 3 then 20000 else 32768)) ∷ []
unfolding get_file_total
get_file_names-single_example =
    get_file_names-single one_file 3 20000 2 one_file-HasPieces refl (omega arith) (omega arith)

abbrev first : File
first = record { length = 100; file_path = 98 ∷ [] }

abbrev second : File
second = record { length = 200; file_path = 99 ∷ [] }

abbrev two_files : Info
two_files = record {
  files = first ∷ second ∷ [];
  pieces = replicate 40 0;
  name = 97 ∷ [];
  length = 0;
  piece_length = 150;
  single = false;
}

-- The bytes 60 to 89 are in the first file.
inside_run :
    get_file_name two_files (pos 0) (pos 60) (pos 30)
    ≡ (97 ∷ 47 ∷ 98 ∷ [], pos 60, pos 30) ∷ (97 ∷ 47 ∷ [], pos 0, pos 0) ∷ []
unfolding get_file_name find_files next_files unused_all
inside_run = refl

find_files_across_example :
    find_files two_files (pos 80) 60 (first ∷ second ∷ [])
    ≡ (folder two_files ++ (98 ∷ []), pos 60, pos 100)
      ∷ (folder two_files ++ (99 ∷ []), pos 0, pos 200)
      ∷ unused_all two_files []
find_files_across_example =
    find_files_across two_files 80 60 first second [] (omega arith) (omega arith) (omega arith)
      (omega arith) (omega arith)
