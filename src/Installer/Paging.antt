-- ===== src/Installer/Paging.antt =====
-- src/installer/src/sys/paging: the page directory and the one page table of the installer. The two
-- tables are aligned to 4096 bytes; the address of the page table is a parameter.
pub mod Translate
mod Tests
use amethyst_os_old.Base.{
  ℕ, ◌+◌, ◌*◌, ◌/◌, ◌%◌, ◌^◌, Bool, true, Option, none, some, List, get_elem?, get_or, set, for_to,
  if◌then◌else◌,
}

-- `struct page_s`
pub record Page : Type 0 where
  pub present : Bool
  pub read_write : Bool
  pub user_supervisor : Bool
  pub write_through : Bool
  pub cache_disable : Bool
  pub accessed : Bool
  pub dirty : Bool
  pub page_attribute_table : Bool
  pub global : Bool
  pub available : ℕ
  pub address : ℕ

abbrev pub page_table_size : ℕ
page_table_size = 1024

abbrev pub page_size : ℕ
page_size = 4096

-- A round of the loop over a table: the fields that it sets in entry `i`. `address` has 20 bits.
abbrev pub fill : (ℕ → ℕ) → Page → ℕ → List Page → List Page
fill address empty i t =
    let p = get_or t i empty in
    set t i (record p { present = true; read_write = true; address = address i % 2 ^ 20 })

-- `directory_table` and `kernel_table`
pub record Tables : Type 0 where
  pub directory : List Page
  pub kernel : List Page

-- `kernel` is the address of the page table. The processor gets the directory after this.
unfoldable pub paging_init : ℕ → Page → Tables → Tables
paging_init kernel empty t = record {
  kernel = for_to page_table_size (fill (λ i. i) empty) t.kernel;
  directory = for_to page_table_size (fill (λ i. kernel / 2 ^ 12) empty) t.directory;
}
