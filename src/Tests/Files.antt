-- ===== src/Tests/Files.antt =====
-- The cache of files of cpp-source/http-api.cpp.
use libjaypea.Base.{codes, [], ◌∷◌, true, some}
use libjaypea.HttpApi.{View, ok_response}
use libjaypea.HttpApi.Files.{FileSystem, Stat, regular, Cache, for_regular}
use libjaypea.HttpApi.Files.Laws.{IsCurrent, for_regular-IsCurrent}

abbrev page_stat : Stat
page_stat = record { st_mode = regular; st_size = 2; st_mtime = 70 }

abbrev disk : FileSystem
disk = record {
  lstat = λ path. some page_stat;
  contents = λ path. some (codes "hi");
  lock_is_free = true;
}

abbrev shown : View
shown = record { route = codes "/a.html"; method = codes "GET"; parameters = [] }

abbrev old_cache : Cache
old_cache = record {
  file_cache =
      (codes "/a.html", record { filled = some (codes "old"); data_length = 3; modified = 60 })
      ∷ [];
  remaining_bytes = 1000;
}

for_regular-IsCurrent_example :
    IsCurrent page_stat (for_regular disk (codes "/a.html") page_stat shown ok_response old_cache).1
for_regular-IsCurrent_example =
    for_regular-IsCurrent disk (codes "/a.html") page_stat shown ok_response old_cache
