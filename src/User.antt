-- ===== src/User.antt =====
-- src/User.cpp: the class `User`, its constructors, getters (the fields) and setters.
-- `User() {}` sets neither `islogin_` nor `socket_fd_`: `none` stands for such a value.
use client_server_signaling.Base.{Text, Bool, Option, none, some, [], ℤ}

pub record User : Type 0 where
  pub username : Text
  pub password : Text
  pub islogin : Option Bool
  pub socket_fd : Option ℤ

abbrev pub user : Text → Text → Bool → ℤ → User
user n p l fd = record { username = n; password = p; islogin = some l; socket_fd = some fd }

abbrev pub default_user : User
default_user = record { username = []; password = []; islogin = none; socket_fd = none }

abbrev pub set_username : Text → User → User
set_username n u = record u { username = n }

abbrev pub set_password : Text → User → User
set_password p u = record u { password = p }

abbrev pub set_islogin : Option Bool → User → User
set_islogin l u = record u { islogin = l }

abbrev pub set_socket_fd : Option ℤ → User → User
set_socket_fd fd u = record u { socket_fd = fd }
