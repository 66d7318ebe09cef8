-- ===== src/Slurmrestd/Partition.antt =====
-- `_partition_values` of slurmweb/slurmrestd/__init__.py: the partitions that a field names.
use slurm_web_plus.Prelude.{
  String, Bool, true, List, [], ◌∷◌, ◌==◌, if◌then◌else◌, elem, Option, none, some,
}
use slurm_web_plus.Prelude.Text.{split, strip}

-- A field of the JSON answer, as far as the code looks at it: absent or null, a text, a list of
-- items, or another value. Items and other values are given by their `str()`.
pub data Field : Type 0 where
  absent : Field
  text : String → Field
  items : List String → Field
  other : String → Field

-- `{p.strip() for p in values if p.strip()}`.
unfoldable pub stripped : List String → List String
unfolding strip
stripped [] = []
stripped (p ∷ ps) = let rest = stripped ps in if strip p == "" then rest else strip p ∷ rest

unfoldable pub partition_values : Field → List String
unfolding stripped split
partition_values absent = []
partition_values (text value) = stripped (split b',' value)
partition_values (items values) = stripped values
partition_values (other value) = stripped (value ∷ [])

-- The test by which the two counting loops pick an item: no partition is asked for, or the item
-- names it.
unfoldable pub in_partition : Option String → Field → Bool
unfolding partition_values elem
in_partition none field = true
in_partition (some partition) field = elem partition (partition_values field)
