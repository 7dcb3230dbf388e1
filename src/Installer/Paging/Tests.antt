-- ===== src/Installer/Paging/Tests.antt =====
-- The tables of the installer, with the page table at 1 MiB.
use amethyst_os_old.Base.{◌%◌, ◌≡◌, false, some, arith, replicate, length-replicate}
use amethyst_os_old.Installer.Paging.{Page, Tables, page_table_size, paging_init}
use amethyst_os_old.Installer.Paging.Translate.{translate, paging_init_lem}

abbrev empty : Page
empty = record {
  present = false;
  read_write = false;
  user_supervisor = false;
  write_through = false;
  cache_disable = false;
  accessed = false;
  dirty = false;
  page_attribute_table = false;
  global = false;
  available = 0;
  address = 0;
}

abbrev zeroed : Tables
zeroed = record {
  directory = replicate page_table_size empty;
  kernel = replicate page_table_size empty;
}

paging_init_lem_example :
    translate 0x10_0000 (paging_init 0x10_0000 empty zeroed) 0x80_1234
    ≡ some (0x80_1234 % 0x40_0000)
paging_init_lem_example =
    paging_init_lem 0x10_0000 empty zeroed 0x80_1234 (omega arith) (omega arith)
      (length-replicate page_table_size empty) (length-replicate page_table_size empty)
      (omega arith)
