-- ===== src/Nanopb/Iter/Examples.antt =====
-- The iterator over a table of two fields.
use ivr_repo.Base.{ℕ, ◌≡◌, refl, arith, false, List, [], ◌∷◌}
use ivr_repo.Nanopb.Descriptor.{Field, ltype_uvarint}
use ivr_repo.Nanopb.Iter.{field_at, current, first, iter_next}
use ivr_repo.Nanopb.Iter.Cycle.{advance, iter_next-first}

abbrev number_field : ℕ → Field
number_field tag = record {
  tag = tag;
  type = ltype_uvarint;
  data_offset = 0;
  size_offset = 0;
  data_size = 4;
  array_size = 0;
  ptr = 0;
}

abbrev table : List Field
table = number_field 3 ∷ number_field 5 ∷ []

iter_next-first_example :
    (current (advance 1 (first table 100)) ≡ field_at table 1)
    × (iter_next (advance 1 (first table 100)) ≡ (false, first table 100))
iter_next-first_example = iter_next-first table 100 1 1 (omega arith) refl (omega arith)
