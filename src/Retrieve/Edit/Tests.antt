-- ===== src/Retrieve/Edit/Tests.antt =====
-- Names that the code meets.
use rongo.Prelude.{◌≡◌, refl, ◌↔◌, true, false, codes}
use rongo.Retrieve.Edit.{walk, within_ordered, within_one_edit}
use rongo.Retrieve.Edit.Exact.{OneEdit, within_one_edit-OneEdit}

peek : within_one_edit (codes "Peek") (codes "peek") ≡ true
unfolding within_one_edit within_ordered walk
peek = refl

peeqs : within_one_edit (codes "peeqs") (codes "peeq") ≡ true
unfolding within_one_edit within_ordered walk
peeqs = refl

far : within_one_edit (codes "loom") (codes "looser") ≡ false
unfolding within_one_edit within_ordered walk
far = refl

within_one_edit-OneEdit_example :
    (within_one_edit (codes "peeqs") (codes "peeq") ≡ true) ↔ OneEdit (codes "peeqs") (codes "peeq")
within_one_edit-OneEdit_example = within_one_edit-OneEdit (codes "peeqs") (codes "peeq")
