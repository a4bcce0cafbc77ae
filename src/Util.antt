-- ===== src/Util.antt =====
-- cpp-source/util.cpp: texts, URL encoding, the HTTP request parser and the command line.
pub mod Url
pub mod Replace
pub mod Http
pub mod Arguments
