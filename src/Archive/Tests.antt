-- ===== src/Archive/Tests.antt =====
-- An archive whose entries write down the paths that are opened.
use kuttl.Common.{◌≡◌, refl, true, Option, none, some, List, [], ◌∷◌, ◌++◌}
use kuttl.Common.Text.{Bytes, codes, text_eq}
use kuttl.Kube.Errors.{ok}
use kuttl.Archive.{Archives, TarEntry, regular, trim_ext, untar_in_place}

abbrev entry : Bytes → TarEntry (Unit {0})
entry name = record { name = name; kind = regular; mode = 0; content = tt }

-- The world is the list of the paths that were opened to write.
abbrev recorded : List Bytes → Archives (List Bytes)
recorded names = record {
  Reader = Unit;
  Content = Unit;
  open_file = λ path w. (ok tt, w);
  gunzip = λ r w. (ok tt, w);
  entries = λ r. all names;
  is_there = λ path w. (true, w);
  mkdir_all = λ path w. (none, w);
  open_to_write = λ path mode w. (none, w ++ (path ∷ []));
  copy = λ content path w. (none, w);
  close = λ path w. (none, w);
}
  where
    all : List Bytes → List (kuttl.Kube.Errors.Result (Option (TarEntry (Unit {0}))))
    all [] = []
    all (n ∷ ns) = ok (some (entry n)) ∷ all ns

trimmed : trim_ext (codes "/opt/foo.tar") ≡ codes "/opt/foo"
unfolding trim_ext
trimmed = refl

unpacked :
    untar_in_place (recorded (codes "a/b.yaml" ∷ [])) (codes "/opt/foo.tar") []
    ≡ (none, codes "/opt/foo/a/b.yaml" ∷ [])
unfolding untar_in_place
unpacked = refl

-- The name of an entry leads out of the folder of the archive.
outside_the_folder :
    untar_in_place (recorded (codes "../../etc/x" ∷ [])) (codes "/opt/foo.tar") []
    ≡ (none, codes "/etc/x" ∷ [])
unfolding untar_in_place
outside_the_folder = refl
