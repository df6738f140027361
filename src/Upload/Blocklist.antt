-- ===== src/Upload/Blocklist.antt =====
-- services/disk_blocklist.go: the sweep of blocked extensions after a download.
pub mod Survivors
pub mod Usable
use loon_agent.Prelude.{
  ℕ, suc, ◌+◌, Bool, true, false, ◌&&◌, not, Option, none, some, List, [], ◌∷◌, ◌++◌, ◌==◌,
  if◌then◌else◌, Bytes, codes, equal, contains, has_prefix, to_lower, trim_space,
}
use loon_agent.Dict.{Dict, empty, get, put}
use loon_agent.FilePath.{ext}
use loon_agent.FileTree.{
  FileInfo, Node, on_file, on_dir, on_locked, on_lost, Outcome, go, fail, Visitor, walk,
}

-- DefaultBlockedExtensions
unfoldable pub default_blocked_extensions : List Bytes
default_blocked_extensions =
    codes ".ade"
    ∷ codes ".adp"
    ∷ codes ".app"
    ∷ codes ".application"
    ∷ codes ".appref-ms"
    ∷ codes ".asp"
    ∷ codes ".aspx"
    ∷ codes ".asx"
    ∷ codes ".bas"
    ∷ codes ".bat"
    ∷ codes ".bgi"
    ∷ codes ".cab"
    ∷ codes ".cer"
    ∷ codes ".chm"
    ∷ codes ".cmd"
    ∷ codes ".cnt"
    ∷ codes ".com"
    ∷ codes ".cpl"
    ∷ codes ".crt"
    ∷ codes ".csh"
    ∷ codes ".der"
    ∷ codes ".diagcab"
    ∷ codes ".exe"
    ∷ codes ".fxp"
    ∷ codes ".gadget"
    ∷ codes ".grp"
    ∷ codes ".hlp"
    ∷ codes ".hpj"
    ∷ codes ".hta"
    ∷ codes ".htc"
    ∷ codes ".inf"
    ∷ codes ".ins"
    ∷ codes ".iso"
    ∷ codes ".isp"
    ∷ codes ".its"
    ∷ codes ".jar"
    ∷ codes ".jnlp"
    ∷ codes ".js"
    ∷ codes ".jse"
    ∷ codes ".ksh"
    ∷ codes ".lnk"
    ∷ codes ".mad"
    ∷ codes ".maf"
    ∷ codes ".mag"
    ∷ codes ".mam"
    ∷ codes ".maq"
    ∷ codes ".mar"
    ∷ codes ".mas"
    ∷ codes ".mat"
    ∷ codes ".mau"
    ∷ codes ".mav"
    ∷ codes ".maw"
    ∷ codes ".mcf"
    ∷ codes ".mda"
    ∷ codes ".mdb"
    ∷ codes ".mde"
    ∷ codes ".mdt"
    ∷ codes ".mdw"
    ∷ codes ".mdz"
    ∷ codes ".msc"
    ∷ codes ".msh"
    ∷ codes ".msh1"
    ∷ codes ".msh2"
    ∷ codes ".mshxml"
    ∷ codes ".msh1xml"
    ∷ codes ".msh2xml"
    ∷ codes ".msi"
    ∷ codes ".msp"
    ∷ codes ".mst"
    ∷ codes ".msu"
    ∷ codes ".ops"
    ∷ codes ".osd"
    ∷ codes ".pcd"
    ∷ codes ".pif"
    ∷ codes ".pl"
    ∷ codes ".plg"
    ∷ codes ".prf"
    ∷ codes ".prg"
    ∷ codes ".printerexport"
    ∷ codes ".ps1"
    ∷ codes ".ps1xml"
    ∷ codes ".ps2"
    ∷ codes ".ps2xml"
    ∷ codes ".psc1"
    ∷ codes ".psc2"
    ∷ codes ".psd1"
    ∷ codes ".psdm1"
    ∷ codes ".pst"
    ∷ codes ".py"
    ∷ codes ".pyc"
    ∷ codes ".pyo"
    ∷ codes ".pyw"
    ∷ codes ".pyz"
    ∷ codes ".pyzw"
    ∷ codes ".reg"
    ∷ codes ".scf"
    ∷ codes ".scr"
    ∷ codes ".sct"
    ∷ codes ".shb"
    ∷ codes ".shs"
    ∷ codes ".sln"
    ∷ codes ".theme"
    ∷ codes ".tmp"
    ∷ codes ".url"
    ∷ codes ".vb"
    ∷ codes ".vbe"
    ∷ codes ".vbp"
    ∷ codes ".vbs"
    ∷ codes ".vcxproj"
    ∷ codes ".vhd"
    ∷ codes ".vhdx"
    ∷ codes ".vsmacros"
    ∷ codes ".vsw"
    ∷ codes ".webpnp"
    ∷ codes ".website"
    ∷ codes ".ws"
    ∷ codes ".wsc"
    ∷ codes ".wsf"
    ∷ codes ".wsh"
    ∷ codes ".xbap"
    ∷ codes ".xll"
    ∷ codes ".xnk"
    ∷ []

abbrev pub with_dot : Bytes → Bytes
with_dot e = if has_prefix e (codes ".") then e else b'.' ∷ e

-- The loop of EffectiveBlocklist over a list that is not empty.
unfoldable pub normal_extensions : List Bytes → List Bytes
normal_extensions [] = []
normal_extensions (e ∷ es) =
    let name = to_lower (trim_space e) in
    if equal name [] then normal_extensions es else with_dot name ∷ normal_extensions es

unfoldable pub effective_blocklist : List Bytes → List Bytes
effective_blocklist [] = default_blocked_extensions
effective_blocklist (e ∷ es) = normal_extensions (e ∷ es)

-- `remote` is remoteBannedExtensions, `none` its nil.
unfoldable pub online_blocklist : Option (List Bytes) → List Bytes
online_blocklist none = default_blocked_extensions
online_blocklist (some []) = default_blocked_extensions
online_blocklist (some (e ∷ es)) = effective_blocklist (e ∷ es)

-- DirHasUsableFiles: the walk stops at the first file that is not empty. Its counters are only
-- logged.
unfoldable pub usable_visit : Visitor Bool (Unit {0})
usable_visit path (on_file i) found = if i.size == 0 then (found, go) else (true, fail tt)
usable_visit path (on_dir n) found = (found, go)
usable_visit path (on_locked n) found = (found, go)
usable_visit path (on_lost n) found = (found, go)

unfoldable pub dir_has_usable_files : Node → Bool
unfolding usable_visit walk
dir_has_usable_files root = (walk usable_visit root false).0

-- What RemoveBlockedFiles returns, and the paths that it hands to os.Remove.
pub record Swept : Type 0 where
  pub removed : ℕ
  pub by_ext : Dict ℕ
  pub gone : List Bytes

abbrev pub count_in : Dict ℕ → Bytes → ℕ
count_in counts name = elim (get counts name) [ none ↦ 0 | some n ↦ n ]

abbrev pub extension_of : FileInfo → Bytes
extension_of i = to_lower (ext i.name)

unfoldable pub remove_one : List Bytes → Bytes → FileInfo → Swept → Swept
remove_one blocklist path i s =
    if contains blocklist (extension_of i)
    then record {
      removed = suc s.removed;
      by_ext = put s.by_ext (extension_of i) (suc (count_in s.by_ext (extension_of i)));
      gone = s.gone ++ (path ∷ []);
    }
    else s

unfoldable pub remove_visit : List Bytes → Visitor Swept (Unit {0})
remove_visit blocklist path (on_file i) s = (remove_one blocklist path i s, go)
remove_visit blocklist path (on_dir n) s = (s, go)
remove_visit blocklist path (on_locked n) s = (s, fail tt)
remove_visit blocklist path (on_lost n) s = (s, fail tt)

abbrev pub or_default : Option (List Bytes) → List Bytes
or_default none = default_blocked_extensions
or_default (some blocklist) = blocklist

abbrev pub no_sweep : Swept
no_sweep = record { removed = 0; by_ext = empty; gone = [] }

unfoldable pub remove_blocked_files : Option (List Bytes) → Node → Swept
unfolding remove_visit walk
remove_blocked_files blocklist root = (walk (remove_visit (or_default blocklist)) root no_sweep).0

pub record ExpectedFile : Type 0 where
  pub path : Bytes
  pub size : ℕ

abbrev pub keep_or_count : Bool → ExpectedFile → List ExpectedFile × ℕ → List ExpectedFile × ℕ
keep_or_count true f (keep, excluded) = (keep, suc excluded)
keep_or_count false f (keep, excluded) = (f ∷ keep, excluded)

unfoldable pub expected_after_blocklist :
    Option (List Bytes) → List ExpectedFile → List ExpectedFile × ℕ
expected_after_blocklist blocked [] = ([], 0)
expected_after_blocklist blocked (f ∷ files) =
    keep_or_count (contains (or_default blocked) (to_lower (ext f.path))) f
      (expected_after_blocklist blocked files)
