-- ===== src/HttpApi/Files/Laws.antt =====
-- What the cache of files serves.
use libjaypea.Base.{
  Bytes, codes, Bool, true, false, Bool-cases, ◌≡◌, refl, sym, inl, inr, Option, none, some,
  is_some, lookup, lookup-insert_same, lookup-erase_same, subst, ltb, equal, ◌&&◌, arith,
}
use libjaypea.HttpApi.{HttpResponse, View}
use libjaypea.HttpApi.Files.{
  Stat, FileSystem, CachedFile, Cache, Answer, cached_page, respond_cached_file, is_html, typed,
  after_reading, for_regular, clear_stale, may_cache, add_entry, entry, serve, from_cache, is_stale,
}

-- The entry of a path, if there is one, is as old as the file.
abbrev pub IsFresh : Stat → Option CachedFile → Type 0
IsFresh stat none = Unit
IsFresh stat (some file) = file.modified ≡ stat.st_mtime

-- An answer from the cache has a file that is as old as the one on the disk.
abbrev pub IsCurrent : Stat → Answer → Type 0
IsCurrent stat (cached_page file response) = file.modified ≡ stat.st_mtime
IsCurrent stat (respond_cached_file file response) = file.modified ≡ stat.st_mtime
IsCurrent stat _ = Unit

not_stale-IsFresh :
    (stat : Stat) (found : Option CachedFile)
    → is_stale found stat.st_mtime ≡ false
    → IsFresh stat found
not_stale-IsFresh stat none h = tt
not_stale-IsFresh stat (some file) h = ground arith

clear_stale-IsFresh :
    (path : Bytes) (stat : Stat) (cache : Cache)
    → IsFresh stat (lookup path (clear_stale path stat cache).file_cache)
unfolding clear_stale
clear_stale-IsFresh path stat cache =
    elim (Bool-cases (is_stale (lookup path cache.file_cache) stat.st_mtime)) [
      | inl old ↦ rw old (subst (IsFresh stat) (sym (lookup-erase_same path cache.file_cache)) tt)
      | inr fine ↦ rw fine (not_stale-IsFresh stat (lookup path cache.file_cache) fine)
    ]

serve-IsCurrent :
    (path : Bytes) (stat : Stat) (response : HttpResponse) (found : Option CachedFile)
    → IsFresh stat found
    → IsCurrent stat (serve path stat response found)
unfolding serve
serve-IsCurrent path stat response none h =
    elim (Bool-cases (ltb stat.st_size 8192 && is_html path)) [
      | inl small ↦ rw small tt
      | inr large ↦ rw large tt
    ]
serve-IsCurrent path stat response (some file) h =
    elim (Bool-cases (ltb file.data_length 8192 && is_html path)) [
      | inl small ↦ rw small h
      | inr large ↦ rw large h
    ]

after_reading-IsCurrent :
    (fs : FileSystem) (path : Bytes) (stat : Stat) (response : HttpResponse) (cache : Cache)
    (read : Bool)
    → IsFresh stat (lookup path cache.file_cache)
    → IsCurrent stat (after_reading fs path stat response cache read).1
after_reading-IsCurrent fs path stat response cache true h =
    serve-IsCurrent path stat response (lookup path cache.file_cache) h
after_reading-IsCurrent fs path stat response cache false h = tt

add_entry-IsFresh :
    (fs : FileSystem) (path : Bytes) (stat : Stat) (cache : Cache)
    → IsFresh stat (lookup path (add_entry fs path stat cache).file_cache)
add_entry-IsFresh fs path stat cache =
    subst (IsFresh stat) (sym (lookup-insert_same path (entry fs path stat) cache.file_cache)) refl

from_cache-IsCurrent :
    (fs : FileSystem) (path : Bytes) (stat : Stat) (response : HttpResponse) (cache : Cache)
    → IsFresh stat (lookup path cache.file_cache)
    → IsCurrent stat (from_cache fs path stat response cache).1
from_cache-IsCurrent fs path stat response cache h =
    elim (Bool-cases (may_cache fs path stat cache)) [
      | inl fills ↦ rw fills (
          after_reading-IsCurrent fs path stat response (add_entry fs path stat cache)
            (is_some (fs.contents path)) (add_entry-IsFresh fs path stat cache))
      | inr not_now ↦ rw not_now (after_reading-IsCurrent fs path stat response cache true h)
    ]

-- Whatever the cache holds, a file that is served from it has the modification time of the file
-- that was found on the disk.
pub for_regular-IsCurrent :
    (fs : FileSystem) (path : Bytes) (stat : Stat) (view : View) (response : HttpResponse)
    (cache : Cache)
    → IsCurrent stat (for_regular fs path stat view response cache).1
for_regular-IsCurrent fs path stat view response cache =
    elim (Bool-cases (equal view.method (codes "HEAD"))) [
      | inl head_only ↦ rw head_only tt
      | inr whole ↦ rw whole (
          from_cache-IsCurrent fs path stat (typed path response) (clear_stale path stat cache)
            (clear_stale-IsFresh path stat cache))
    ]
