-- ===== src/HttpApi/Files.antt =====
-- `HttpApi::respond_http` of cpp-source/http-api.cpp: which file is served, and from where.
pub mod Laws
use libjaypea.Base.{
  ℕ, zero, suc, ◌+◌, ◌-◌, ◌/◌, ◌%◌, Bytes, codes, [], ◌∷◌, ◌++◌, Bool, true, false, not, ◌&&◌, ◌==◌,
  ltb, equal, if◌then◌else◌, Option, none, some, is_some, Dict, lookup, insert, erase,
}
use libjaypea.Util.Replace.{ends_with}
use libjaypea.HttpApi.{HttpResponse, View}
use libjaypea.HttpApi.Paths.{clean_route, content_type}

pub data FileKind : Type 0 where
  directory regular special : FileKind

pub record Stat : Type 0 where
  pub st_mode : FileKind
  pub st_size : ℕ
  pub st_mtime : ℕ

-- `contents` is `none` where the file cannot be opened, read or closed; `lock_is_free` is the
-- result of `try_lock`.
pub record FileSystem : Type 0 where
  pub lstat : Bytes → Option Stat
  pub contents : Bytes → Option Bytes
  pub lock_is_free : Bool

-- `filled` has the bytes that were read, if all were: `none` is memory that was not set.
pub record CachedFile : Type 0 where
  pub filled : Option Bytes
  pub data_length : ℕ
  pub modified : ℕ

pub record Cache : Type 0 where
  pub file_cache : Dict CachedFile
  pub remaining_bytes : ℕ

-- Which call ends `respond_http`: the page of a cached file with its parameters, the cached file,
-- and the two views from the file.
pub data Answer : Type 0 where
  respond_404 : Answer
  failed : Answer
  head : HttpResponse → Answer
  cached_page : CachedFile → HttpResponse → Answer
  respond_cached_file : CachedFile → HttpResponse → Answer
  respond_parameterized_view : Bytes → HttpResponse → Answer
  respond_view : Bytes → HttpResponse → Answer

-- `std::to_string`.
abbrev digits : ℕ → ℕ → Bytes
digits zero n = []
digits (suc f) n = if ltb n 10 then (48 + n) ∷ [] else digits f (n / 10) ++ (48 + n % 10) ∷ []

abbrev pub to_string : ℕ → Bytes
to_string n = digits (suc n) n

abbrev pub is_html : Bytes → Bool
is_html path = ends_with path (codes ".html")

abbrev pub typed : Bytes → HttpResponse → HttpResponse
typed path response = record response {
  headers = insert (codes "Content-Type") (content_type path) response.headers;
}

abbrev pub is_stale : Option CachedFile → ℕ → Bool
is_stale none st_mtime = false
is_stale (some file) st_mtime = not (st_mtime == file.modified)

-- "If the modified time changed, clear the cache": the bytes are not given back.
unfoldable pub clear_stale : Bytes → Stat → Cache → Cache
clear_stale path stat cache =
    if is_stale (lookup path cache.file_cache) stat.st_mtime
    then record cache { file_cache = erase path cache.file_cache }
    else cache

unfoldable pub may_cache : FileSystem → Bytes → Stat → Cache → Bool
may_cache fs path stat cache =
    not (is_some (lookup path cache.file_cache))
    && ltb stat.st_size cache.remaining_bytes
    && fs.lock_is_free

-- The entry is made before the file is read.
abbrev pub entry : FileSystem → Bytes → Stat → CachedFile
entry fs path stat = record {
  filled = fs.contents path;
  data_length = stat.st_size;
  modified = stat.st_mtime;
}

abbrev pub add_entry : FileSystem → Bytes → Stat → Cache → Cache
add_entry fs path stat cache = record {
  file_cache = insert path (entry fs path stat) cache.file_cache;
  remaining_bytes = cache.remaining_bytes - stat.st_size;
}

unfoldable pub serve : Bytes → Stat → HttpResponse → Option CachedFile → Answer
serve path stat response (some file) =
    if ltb file.data_length 8192 && is_html path
    then cached_page file response
    else respond_cached_file file response
serve path stat response none =
    if ltb stat.st_size 8192 && is_html path
    then respond_parameterized_view path response
    else respond_view path response

abbrev pub after_reading : FileSystem → Bytes → Stat → HttpResponse → Cache → Bool → Cache × Answer
after_reading fs path stat response cache true =
    (cache, serve path stat response (lookup path cache.file_cache))
after_reading fs path stat response cache false = (cache, failed)

abbrev pub from_cache : FileSystem → Bytes → Stat → HttpResponse → Cache → Cache × Answer
from_cache fs path stat response cache =
    if may_cache fs path stat cache
    then after_reading fs path stat response (add_entry fs path stat cache)
        (is_some (fs.contents path))
    else after_reading fs path stat response cache true

abbrev pub for_regular : FileSystem → Bytes → Stat → View → HttpResponse → Cache → Cache × Answer
for_regular fs path stat view response cache =
    if equal view.method (codes "HEAD")
    then (
      cache,
      head (record response {
        headers =
            insert (codes "Content-Length") (to_string stat.st_size) (typed path response).headers;
      }),
    )
    else from_cache fs path stat (typed path response) (clear_stale path stat cache)

abbrev pub for_file :
    FileSystem → Bytes → View → HttpResponse → Cache → Option Stat → Cache × Answer
for_file fs path view response cache none = (cache, respond_404)
for_file fs path view response cache (some stat) = elim (stat.st_mode) [
  | regular ↦ for_regular fs path stat view response cache
  | _ ↦ (cache, respond_404)
]

abbrev pub for_path :
    FileSystem → Bytes → View → HttpResponse → Cache → Option Stat → Cache × Answer
for_path fs path view response cache none = (cache, respond_404)
for_path fs path view response cache (some stat) = elim (stat.st_mode) [
  | directory ↦
      let index = path ++ codes "/index.html" in
      for_file fs index view response cache (fs.lstat index)
  | _ ↦ for_file fs path view response cache (some stat)
]

unfoldable pub respond_http : FileSystem → Bytes → View → HttpResponse → Cache → Cache × Answer
respond_http fs public_directory view response cache =
    let path = clean_route public_directory view.route in
    for_path fs path view response cache (fs.lstat path)
