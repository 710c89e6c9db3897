-- ===== src/Files.antt =====
-- ProjectFiles/fsdata_custom.c: the image of the web site for lwIP's HTTP server.
pub mod FaviconIco
pub mod FaviconIco1
pub mod FaviconIco10
pub mod FaviconIco11
pub mod FaviconIco2
pub mod FaviconIco3
pub mod FaviconIco4
pub mod FaviconIco5
pub mod FaviconIco6
pub mod FaviconIco7
pub mod FaviconIco8
pub mod FaviconIco9
pub mod IndexHtml
pub mod IndexHtml1
pub mod KeypadHtml
pub mod KeypadHtml1
pub mod KeypadHtml2
pub mod KeypadJs
pub mod KeypadJs1
pub mod KeypadJs2
pub mod KeypadJs3
pub mod KeypadJs4
pub mod KeypadJs5
pub mod LoginJs
pub mod LoginJs1
pub mod LoginJs2
pub mod LoginJs3
pub mod LoginJs4
pub mod Rows
pub mod SettingsHtml
pub mod SettingsHtml1
pub mod SettingsJs
pub mod SettingsJs1
pub mod SettingsJs2
pub mod SettingsJs3
pub mod StylesCss
pub mod StylesCss1
pub mod StylesCss2
pub mod Image
mod Tests
