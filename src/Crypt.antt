-- ===== src/Crypt.antt =====
-- lualib-src/lua-crypt.cpp: the pure functions behind the Lua functions of the module crypt. A Lua
-- error is `none`; a string is the list of its bytes.
pub mod Bytes
pub mod Des
pub mod Hex
pub mod Dh
pub mod Base64
pub mod Md5
mod Tests
