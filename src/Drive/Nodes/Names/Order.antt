-- ===== src/Drive/Nodes/Names/Order.antt =====
-- internal/drive/drive.go: the order of a listing whose names several goroutines decrypt.
use proton_drive_linux_fs.Base.{ℕ, ◌==◌, Bool, false, ◌||◌, List, [], ◌∷◌}
use proton_drive_linux_fs.Drive.Nodes.{Link, Node, Library}
use proton_drive_linux_fs.Drive.Nodes.Names.{named, prepend}

-- The nodes of the links whose names decrypt, one link after the other.
pub readable : {K : Type 0} → Library K → List Link → K → List (Node K)
readable lib [] parent_kr = []
readable lib (link ∷ links) parent_kr =
    prepend (named link parent_kr (lib.get_name link parent_kr)) (readable lib links parent_kr)

-- Whether an order has the index `j`.
unfoldable pub has_index : ℕ → List ℕ → Bool
has_index j [] = false
has_index j (i ∷ order) = i == j || has_index j order
