-- ===== src/Tests/Files.antt =====
-- A memory image of four pages: libvmi/driver/file/file.c and libvmi/read.c on it.
use libvmi.Common.{
  ℕ, ◌+◌, ◌-◌, ◌%◌, ◌^◌, min, true, ◌==◌, ltb, [], none, some, if◌then◌else◌, ◌≡◌, refl, arith,
}
use libvmi.Types.{success, failure, Conf}
use libvmi.Cache.Table.{GHashTable}
use libvmi.Cache.Assoc.{number_table}
use libvmi.Cache.Memory.{MemoryCacheEntry, MemoryCache, memory_cache_init}
use libvmi.Cache.Memory.Laws.{IsValid}
use libvmi.Access.Env.{Env}
use libvmi.Access.Window.{window}
use libvmi.Access.Sized.{vmi_read_pa}
use libvmi.Driver.File.{System, file_callbacks, file_memory_conf, file_env}
use libvmi.Driver.File.Laws.{IsImage, file_page}
use libvmi.Driver.File.Reads.{vmi_read_pa-content, vmi_read_pa-past_end}
use libvmi.Tests.{conf}

abbrev size : ℕ
size = 16384

abbrev content : ℕ → ℕ
content a = a % 251

-- The state is the position in the file.
abbrev system : System ℕ
system = record {
  malloc = λ n s. (true, s);
  free = λ s. s;
  lseek = λ p s. if ltb p (2 ^ 63) then (some p, p) else (none, s);
  read = λ n s. (some (window content s (min n (size - s))), s + min n (size - s));
  time = λ s. (0, s);
}

system-IsImage : IsImage system (λ s. s) content size
system-IsImage = record {
  malloc = λ n s. refl;
  lseek = λ p s. ground arith;
  moved = λ p s h. ground (arith, h);
  read = λ n s. refl;
}

abbrev image_conf : Conf
image_conf = record conf { file_mode = true; max_physical_address = size }

abbrev pages : GHashTable ℕ MemoryCacheEntry ◌==◌
pages = number_table MemoryCacheEntry

abbrev instance_data : MemoryCache pages × ℕ
instance_data = (memory_cache_init pages, 7)

-- An instance without an operating system.
abbrev other : Env (MemoryCache pages × ℕ)
other = record {
  lookup = λ npt npm pt pm va s. (failure, (0, 0), s);
  read_page = λ pfn s. (none, s);
  write = λ paddr buf s. (failure, s);
  ksym2v = λ sym s. (none, s);
  pid_to_dtb = λ pid s. (none, s);
}

empty-IsGood :
    IsValid pages
      (file_callbacks system size)
      (file_memory_conf image_conf)
      (file_page content size 4096)
      (memory_cache_init pages)
unfolding memory_cache_init
empty-IsGood = record {
  tracked = λ p e found. ground (arith, found, pages.lookup-new p);
  bounded = omega arith;
}

vmi_read_pa-content_example :
    (i : MemoryCache pages × ℕ) × (vmi_read_pa
        (file_env pages system image_conf other)
        image_conf
        4090
        12
        instance_data
      ≡ (success, window content 4090 12, i))
    × IsValid pages
        (file_callbacks system size)
        (file_memory_conf image_conf)
        (file_page content size 4096)
        i.0
vmi_read_pa-content_example =
    vmi_read_pa-content pages system image_conf (λ s. s) content system-IsImage (omega arith)
      (refl, omega arith) (omega arith) other 4090 12 instance_data (omega arith) empty-IsGood

vmi_read_pa-past_end_example :
    (i : MemoryCache pages × ℕ) × (vmi_read_pa
        (file_env pages system image_conf other)
        image_conf
        12288
        8
        instance_data
      ≡ (failure, [], i))
    × IsValid pages
        (file_callbacks system size)
        (file_memory_conf image_conf)
        (file_page content size 4096)
        i.0
vmi_read_pa-past_end_example =
    vmi_read_pa-past_end pages system image_conf (λ s. s) content system-IsImage (omega arith)
      (refl, omega arith) (omega arith) other 12288 7 instance_data (omega arith) (omega arith)
      empty-IsGood
