-- ===== src/Transform/PageProvider.antt =====
-- src/transform/fixed_page_provider.cpp: a provider is the marshal that it gives to each page.
use simple_db.Table.Schema.{Schema}
use simple_db.Transform.Marshal.{Marshal}
use simple_db.Transform.Marshal

abbrev pub make_fixed_page_provider : Schema → Marshal
make_fixed_page_provider schema = Marshal.create schema
