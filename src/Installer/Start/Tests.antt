-- ===== src/Installer/Start/Tests.antt =====
-- The installer with zeroed tables, before it opens the disk.
use amethyst_os_old.Base.{none, false, replicate}
use amethyst_os_old.Kernel.Alloc.{empty_chunk}
use amethyst_os_old.Installer.Error.{Error}
use amethyst_os_old.Installer.Paging.{Page, Tables, page_table_size}
use amethyst_os_old.Installer.Console.{System}

abbrev no_page : Page
no_page = record {
  present = false;
  read_write = false;
  user_supervisor = false;
  write_through = false;
  cache_disable = false;
  accessed = false;
  dirty = false;
  page_attribute_table = false;
  global = false;
  available = 0;
  address = 0;
}

abbrev no_tables : Tables
no_tables = record {
  directory = replicate page_table_size no_page;
  kernel = replicate page_table_size no_page;
}

abbrev loaded : System
loaded = record {
  text = record {
    cur_x = 0;
    cur_y = 0;
    bg_color = 0;
    fg_color = 0xf;
    font = none;
    memory = λ a. 0;
  };
  heap = record { allocated = replicate 3 empty_chunk; freed = replicate 3 empty_chunk };
  err = Error.none_yet;
}
