-- ===== src/Encryptor.antt =====
-- `SymmetricEncryptor` of cpp-source/symmetric-encryptor.cpp: the texts it makes, and its packets
-- on a socket. The functions of Crypto++ are parameters; `none` is one of its exceptions.
pub mod Codec
pub mod Packets
