-- ===== src/Upload/Tests/Trees.antt =====
-- The trees of the runs.
use loon_agent.Prelude.{ℕ, String, codes}
use loon_agent.FileTree.{Kind, FileInfo, Node, Nodes}

abbrev pub info : String → ℕ → FileInfo
info name size = record { name = codes name; size = size; kind = Kind.regular }

abbrev pub entries : Nodes
entries =
    Nodes.cons (Node.file (info "a.mkv" 2097152))
      (Nodes.cons (Node.file (info "b.exe" 7)) (Nodes.cons (Node.file (info "c.nfo" 3)) Nodes.nil))

abbrev pub release : Node
release = Node.dir (codes "release") entries

abbrev pub stage : Node
stage = Node.dir (codes "stage-1") Nodes.nil
