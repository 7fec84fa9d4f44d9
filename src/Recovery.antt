-- ===== src/Recovery.antt =====
-- do_recovery_mode of main/main.c.
pub mod Ranges
use bkc_chooser.Base.{
  ℕ, zero, suc, ◌+◌, ◌*◌, ◌/◌, Bool, true, ◌&&◌, ◌||◌, List, [], ◌∷◌, ◌++◌, Bytes, codes, ℤ, pos,
  eqb_ℤ, ltb, if◌then◌else◌,
}
use bkc_chooser.Libc.{print_nat}

-- APPFS_PART_TYPE, and the data partition of the NVS.
pub data Partition : Type 0 where
  appfs nvs : Partition

-- What the menu's choice makes the function do: texts on the screen and esp_partition_erase_range.
pub data Step : Type 0 where
  show : Bytes → Step
  erase_range : Partition → ℕ → ℕ → Step

-- The sizes of the partitions, and which calls of esp_partition_erase_range, for
-- an offset and a length, return ESP_OK.
pub record Flash : Type 0 where
  pub size_of : Partition → ℕ
  pub erase_ok : Partition → ℕ → ℕ → Bool

abbrev pub erase_block : ℕ
erase_block = 0x10000

-- The loop over the blocks from `i` on, on fuel, and whether all calls succeeded. The partition is
-- small enough for `i*100` to be an int.
unfoldable pub erase_blocks : ℕ → ℕ → Flash → List Step × Bool
erase_blocks zero i f = ([], true)
erase_blocks (suc fuel) i f =
    let size = f.size_of appfs in
    let (steps, ok) = erase_blocks fuel (i + erase_block) f in
    if ltb i size
    then (
      show (codes "ERASING...")
          ∷ show (print_nat (i * 100 / size) ++ codes "%")
          ∷ erase_range appfs i erase_block
          ∷ steps,
      f.erase_ok appfs i erase_block && ok,
    )
    else ([], true)

unfoldable pub failed : Bool → List Step
failed ok = if ok then [] else show (codes "FAILED") ∷ []

-- Erase Flash. One round for each block, and one for the test that ends the loop.
unfoldable pub kill_appfs : Flash → List Step
kill_appfs f =
    let (steps, ok) = erase_blocks (f.size_of appfs / erase_block + 2) 0 f in steps ++ failed ok

-- Reset NVS.
unfoldable pub kill_nvs : Flash → List Step
kill_nvs f =
    show (codes "CLEARING...")
    ∷ erase_range nvs 0 (f.size_of nvs)
    ∷ failed (f.erase_ok nvs 0 (f.size_of nvs))

-- do_recovery_mode, for the index that the menu returns.
unfoldable pub do_recovery_mode : ℤ → Flash → List Step
do_recovery_mode i f =
    if eqb_ℤ i (pos 1) || eqb_ℤ i (pos 3)
    then kill_appfs f
    else if eqb_ℤ i (pos 2) || eqb_ℤ i (pos 3)
    then kill_nvs f
    else []
